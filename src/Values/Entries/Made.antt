-- ===== src/Values/Entries/Made.antt =====
-- `makeMapEntry` of JFormDB: the entry that is found or made, and the way to it.
use jcontainers_ng.Common.{
  ℕ, ◌+◌, ◌<◌, ◌≡◌, refl, ap, ◌∙◌, sym, true, false, ◌==◌, Option, none, some, List, [], arith,
}
use mathlib.Core.Path.{subst}
use jcontainers_ng.Item.{Item, blank, object, object_of, FormRef}
use jcontainers_ng.Maps
use jcontainers_ng.Paths.{Store, map, form_map, name_lt, form_lt, write}
use jcontainers_ng.Paths.Parse.{make_weak_form_id}
use jcontainers_ng.Paths.Assign.{u_get-u_write_self, name_lt-IsComparer, form_lt-IsComparer}
use jcontainers_ng.Values.Pools.{as_map}
use jcontainers_ng.Values.Entries.{check_text, is_form, contents_of, get_named, as_form_map}
use jcontainers_ng.Values.Entries.Writing.{
  set_obj, storage_or_new, make_form_storage, entry_or_new, entry_in, make_map_entry,
}
use jcontainers_ng.Values.Entries.Chains.{
  IsEntry, as_map-map, as_map-some, as_form_map-some, storage-other, get_item-found, set_named-map,
}

entry_of-none :
    (R : Type 0) (key : FormRef) (e : ℕ)
    → is_form key ≡ true
    → ¬ (Maps.get_item {V = Item R} form_lt is_form object_of (some []) key none ≡ some e)
unfolding Maps.do_read_op_r Maps.u_get
entry_of-none R key e h found =
    let missing : Maps.get_item {V = Item R} form_lt is_form object_of (some []) key none ≡ none =
      rw h refl in
    absurd cc

is_form-weak : (form : ℕ) → (form == 0) ≡ false → is_form (make_weak_form_id form) ≡ true
is_form-weak form h = rw h (rw h refl)

module _ {R : Type 0} (root : ℕ) (name : List ℕ) (form : ℕ) where
  -- A call that made or found the entry of the form, which is not the root.
  abbrev pub IsMade : Option ℕ × Store R → Type 0
  IsMade r = (e : ℕ) × (r.0 ≡ some e) × IsEntry r.1 root name form e × ((e == root) ≡ false)

  abbrev entry_of : List (FormRef × Item R) → Option ℕ
  entry_of fm = Maps.get_item form_lt is_form object_of (some fm) (make_weak_form_id form) none

  module _ (s : Store R) (roots : List (List ℕ × Item R)) (f : ℕ) (fm : List (FormRef × Item R))
      (in_root : s.objects root ≡ map roots)
      (is_storage : Maps.get_item name_lt check_text object_of (some roots) name none ≡ some f)
      (in_storage : s.objects f ≡ form_map fm) where
    entry_or_new-none :
        root < s.next_address
        → f < s.next_address
        → (form == 0) ≡ false
        → IsMade (entry_or_new s (f, fm) form none)
    unfolding entry_or_new
    entry_or_new-none old old_f h =
        let a = s.next_address in
        let apart = storage-other s f root fm roots in_storage in_root in
        let f_root : (f == root) ≡ false = ground arith in
        let a_root : (a == root) ≡ false = ground arith in
        let f_a : (f == a) ≡ false = ground arith in
        let a_a : (a == a) ≡ true = ground arith in
        let f_f : (f == f) ≡ true = ground arith in
        let key = make_weak_form_id form in
        let accepted = is_form-weak form h in
        let fm' = Maps.u_write form_lt blank fm key (λ itm. object (some a)) in
        rw accepted (
          a,
          refl,
          record {
            storages = roots;
            storage = f;
            entries = fm';
            items = [];
            in_root = rw f_root (rw a_root in_root);
            is_storage = is_storage;
            in_storage = rw f_f refl;
            is_entry =
                get_item-found form_lt is_form object_of fm' key (object (some a)) none accepted
                  (u_get-u_write_self form_lt form_lt-IsComparer blank (object (some a)) fm key);
            in_entry = rw f_a (rw a_a refl);
          },
          a_root,
        )

    entry_in-IsMade :
        root < s.next_address
        → f < s.next_address
        → (form == 0) ≡ false
        → ((e : ℕ) → entry_of fm ≡ some e → IsEntry s root name form e → (e == root) ≡ false)
        → IsMade (entry_in (some (f, fm), s) form)
    unfolding entry_in entry_or_new
    entry_in-IsMade old old_f h other = by_entry (as_map s (entry_of fm)) refl
      where
        by_entry :
            (x : Option (ℕ × List (List ℕ × Item R)))
            → as_map s (entry_of fm) ≡ x
            → IsMade (entry_or_new s (f, fm) form x)
        by_entry none e = entry_or_new-none old old_f h
        by_entry (some (a, items)) e =
            let (is_entry, in_entry) = as_map-some s (entry_of fm) a items e in
            let c : IsEntry s root name form a = record {
              storages = roots;
              storage = f;
              entries = fm;
              items = items;
              in_root = in_root;
              is_storage = is_storage;
              in_storage = in_storage;
              is_entry = is_entry;
              in_entry = in_entry;
            } in
            (a, refl, c, other a is_entry c)

  module _ (s : Store R) (roots : List (List ℕ × Item R)) (in_root : s.objects root ≡ map roots)
      (old : root < s.next_address) (ok : check_text name ≡ true) (h : (form == 0) ≡ false) where
    abbrev stored : Option ℕ
    stored = Maps.get_item name_lt check_text object_of (some roots) name none

    -- A new storage, and in it a new entry.
    storage_or_new-none : IsMade (entry_in (storage_or_new s root name none) form)
    unfolding storage_or_new set_obj
    storage_or_new-none =
        let a = s.next_address in
        let made : Store R = record (write s a (form_map [])) { next_address = a + 1 } in
        let a_root : (a == root) ≡ false = ground arith in
        let root_a : (root == a) ≡ false = ground arith in
        let a_a : (a == a) ≡ true = ground arith in
        let root_root : (root == root) ≡ true = ground arith in
        let roots' = Maps.u_write name_lt blank roots name (λ itm. object (some a)) in
        let set = set_named-map made root roots name (object (some a)) ok (rw a_root in_root) in
        let is_storage =
          get_item-found name_lt check_text object_of roots' name (object (some a)) none ok
            (u_get-u_write_self name_lt name_lt-IsComparer blank (object (some a)) roots name) in
        subst (λ s. IsMade (entry_in (some (a, []), s) form)) (sym set)
          (entry_in-IsMade (write made root (map roots')) roots' a [] (rw root_root refl) is_storage
            (rw root_a (rw a_a refl)) (omega arith) (omega arith) h
            (λ e found c.
              absurd (entry_of-none R (make_weak_form_id form) e (is_form-weak form h) found)))

    pub make_map_entry-IsMade :
        ((f : ℕ) → stored ≡ some f → f < s.next_address)
        → ((e : ℕ) → IsEntry s root name form e → (e == root) ≡ false)
        → IsMade (make_map_entry s root (some name) form)
    unfolding make_map_entry make_form_storage storage_or_new
    make_map_entry-IsMade in_use other = rw h (rw ok (by_storage (as_form_map s looked_up) refl))
      where
        looked_up : Option ℕ
        looked_up = get_named object_of s (some root) (some name) none

        by_storage :
            (x : Option (ℕ × List (FormRef × Item R)))
            → as_form_map s looked_up ≡ x
            → IsMade (entry_in (storage_or_new s root name x) form)
        by_storage none e = storage_or_new-none
        by_storage (some (f, fm)) e =
            let (found, in_storage) = as_form_map-some s looked_up f fm e in
            let of_root = as_map-map s root roots in_root in
            let is_storage : stored ≡ some f =
              ap (λ r. Maps.get_item name_lt check_text object_of (contents_of r) name none)
                (sym of_root)
              ∙ found in
            entry_in-IsMade s roots f fm in_root is_storage in_storage old (in_use f is_storage) h
              (λ e is_entry c. other e c)
