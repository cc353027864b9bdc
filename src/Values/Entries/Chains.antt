-- ===== src/Values/Entries/Chains.antt =====
-- The way from the root over a storage to the entry of a form, and what a write leaves of it.
use jcontainers_ng.Common.{
  ℕ, ◌≡◌, refl, ap, ◌∙◌, sym, Bool, true, false, ◌==◌, Option, none, some, List, arith, Bool-cases,
  inl, inr, some-eq,
}
use jcontainers_ng.Item.{Item, blank, object_of, FormRef}
use jcontainers_ng.Maps
use jcontainers_ng.Paths.{
  Store, Container, array, map, form_map, integer_map, name_lt, form_lt, write,
}
use jcontainers_ng.Paths.Parse.{make_weak_form_id}
use jcontainers_ng.Paths.Assign.{u_get-u_write_self, name_lt-IsComparer}
use jcontainers_ng.Values.Pools.{as_map}
use jcontainers_ng.Values.Entries.{
  check_text, is_form, contents_of, address_of, get_named, as_form_map, find_entry, find_map_entry,
}
use jcontainers_ng.Values.Entries.Writing.{set_text, set_named}

-- `e` is the entry of the form in the storage.
pub record IsEntry {R : Type 0} (s : Store R) (root : ℕ) (name : List ℕ) (form e : ℕ) : Type 0 where
  pub storages : List (List ℕ × Item R)
  pub storage : ℕ
  pub entries : List (FormRef × Item R)
  pub items : List (List ℕ × Item R)
  pub in_root : s.objects root ≡ map storages
  pub is_storage :
      Maps.get_item name_lt check_text object_of (some storages) name none ≡ some storage
  pub in_storage : s.objects storage ≡ form_map entries
  pub is_entry :
      Maps.get_item form_lt is_form object_of (some entries) (make_weak_form_id form) none ≡ some e
  pub in_entry : s.objects e ≡ map items

module _ {R : Type 0} where
  pub as_map-map :
      (s : Store R) (a : ℕ) (m : List (List ℕ × Item R))
      → s.objects a ≡ map m
      → as_map s (some a) ≡ some (a, m)
  unfolding as_map
  as_map-map s a m e = rw (e, as_map) refl

  pub as_form_map-form_map :
      (s : Store R) (a : ℕ) (m : List (FormRef × Item R))
      → s.objects a ≡ form_map m
      → as_form_map s (some a) ≡ some (a, m)
  unfolding as_form_map
  as_form_map-form_map s a m e = rw (e, as_form_map) refl

  pub storage-other :
      (s : Store R) (f e : ℕ) (fm : List (FormRef × Item R)) (m : List (List ℕ × Item R))
      → s.objects f ≡ form_map fm
      → s.objects e ≡ map m
      → (e == f) ≡ false
  storage-other s f e fm m there here = elim (Bool-cases (e == f)) [
    | inr differ ↦ differ
    | inl same ↦ let eq : e ≡ f = ground arith in cc
  ]

  pub find_map_entry-IsEntry :
      (s : Store R) (root : ℕ) (name : List ℕ) (form e : ℕ)
      → IsEntry s root name form e
      → find_map_entry s root (some name) form ≡ some e
  unfolding find_map_entry find_entry
  find_map_entry-IsEntry s root name form e c =
      let of_root = as_map-map s root c.storages c.in_root in
      let of_storage = as_form_map-form_map s c.storage c.entries c.in_storage in
      let stored : get_named object_of s (some root) (some name) none ≡ some c.storage =
        ap (λ r. Maps.get_item name_lt check_text object_of (contents_of r) name none) of_root
        ∙ c.is_storage in
      let among : Option (ℕ × List (FormRef × Item R)) → Option ℕ = λ r.
        Maps.get_item form_lt is_form object_of (contents_of r) (make_weak_form_id form) none in
      let found : find_entry s root (some name) form ≡ some e =
        ap (λ f. among (as_form_map s f)) stored ∙ ap among of_storage ∙ c.is_entry in
      ap (λ e. address_of (as_map s e)) found ∙ ap address_of (as_map-map s e c.items c.in_entry)

  -- A write to the entry's map leaves the way to it.
  pub write-IsEntry :
      (s : Store R) (root : ℕ) (name : List ℕ) (form e : ℕ) (m : List (List ℕ × Item R))
      → (e == root) ≡ false
      → IsEntry s root name form e
      → IsEntry (write s e (map m)) root name form e
  write-IsEntry s root name form e m other c =
      let apart = storage-other s c.storage e c.entries c.items c.in_storage c.in_entry in
      let self : (e == e) ≡ true = ground arith in
      record {
        storages = c.storages;
        storage = c.storage;
        entries = c.entries;
        items = m;
        in_root = rw other c.in_root;
        is_storage = c.is_storage;
        in_storage = rw apart c.in_storage;
        is_entry = c.is_entry;
        in_entry = rw self refl;
      }

  -- An item that was set under an accepted key is what `getItem` reads.
  pub get_item-found :
      {K T : Type 0} (lt : K → K → Bool) (ok : K → Bool) (read : Item R → T) (m : List (K × Item R))
      (key : K) (val : Item R) (t : T)
      → ok key ≡ true
      → Maps.u_get lt m key ≡ some val
      → Maps.get_item lt ok read (some m) key t ≡ read val
  unfolding Maps.do_read_op_r
  get_item-found lt ok read m key val t accepted there = rw accepted (rw there refl)

  pub set_named-map :
      (s : Store R) (e : ℕ) (m : List (List ℕ × Item R)) (key : List ℕ) (val : Item R)
      → check_text key ≡ true
      → s.objects e ≡ map m
      → set_named s (some e) (some key) val
        ≡ write s e (map (Maps.u_write name_lt blank m key (λ itm. val)))
  set_named-map s e m key val ok here =
      ap (λ r. set_text s r key val) (as_map-map s e m here) ∙ rw ok refl

  pub get_named-set_named :
      {T : Type 0} (read : Item R → T) (s : Store R) (e : ℕ) (m : List (List ℕ × Item R))
      (key : List ℕ) (val : Item R) (t : T)
      → check_text key ≡ true
      → s.objects e ≡ map m
      → get_named read (set_named s (some e) (some key) val) (some e) (some key) t ≡ read val
  get_named-set_named read s e m key val t ok here =
      let m' = Maps.u_write name_lt blank m key (λ itm. val) in
      let self : (e == e) ≡ true = ground arith in
      let there : (write s e (map m')).objects e ≡ map m' = rw self refl in
      ap (λ s. get_named read s (some e) (some key) t) (set_named-map s e m key val ok here)
      ∙ ap (λ r. Maps.get_item name_lt check_text read (contents_of r) key t)
          (as_map-map (write s e (map m')) e m' there)
      ∙ get_item-found name_lt check_text read m' key val t ok
          (u_get-u_write_self name_lt name_lt-IsComparer blank val m key)

  -- What the conversions of a pointer answer is there.
  pub as_map-some :
      (s : Store R) (o : Option ℕ) (a : ℕ) (m : List (List ℕ × Item R))
      → as_map s o ≡ some (a, m)
      → (o ≡ some a) × (s.objects a ≡ map m)
  unfolding as_map
  as_map-some s none a m e = absurd cc
  as_map-some s (some b) a m e = by_kind (s.objects b) refl
    where
      by_kind : (c : Container R) → s.objects b ≡ c → (some b ≡ some a) × (s.objects a ≡ map m)
      by_kind (array n) h = let no : as_map s (some b) ≡ none = rw (h, as_map) refl in absurd cc
      by_kind (map n) h =
          let p : (b, n) ≡ (a, m) = some-eq (sym (as_map-map s b n h) ∙ e) in
          (ap (λ q. some q.0) p, ap (λ q. s.objects q.0) (sym p) ∙ h ∙ ap (λ q. map q.1) p)
      by_kind (form_map n) h = let no : as_map s (some b) ≡ none = rw (h, as_map) refl in absurd cc
      by_kind (integer_map n) h =
          let no : as_map s (some b) ≡ none = rw (h, as_map) refl in absurd cc

  pub as_form_map-some :
      (s : Store R) (o : Option ℕ) (a : ℕ) (m : List (FormRef × Item R))
      → as_form_map s o ≡ some (a, m)
      → (o ≡ some a) × (s.objects a ≡ form_map m)
  unfolding as_form_map
  as_form_map-some s none a m e = absurd cc
  as_form_map-some s (some b) a m e = by_kind (s.objects b) refl
    where
      by_kind : (c : Container R) → s.objects b ≡ c → (some b ≡ some a) × (s.objects a ≡ form_map m)
      by_kind (array n) h =
          let no : as_form_map s (some b) ≡ none = rw (h, as_form_map) refl in absurd cc
      by_kind (map n) h =
          let no : as_form_map s (some b) ≡ none = rw (h, as_form_map) refl in absurd cc
      by_kind (form_map n) h =
          let p : (b, n) ≡ (a, m) = some-eq (sym (as_form_map-form_map s b n h) ∙ e) in
          (ap (λ q. some q.0) p, ap (λ q. s.objects q.0) (sym p) ∙ h ∙ ap (λ q. form_map q.1) p)
      by_kind (integer_map n) h =
          let no : as_form_map s (some b) ≡ none = rw (h, as_form_map) refl in absurd cc
