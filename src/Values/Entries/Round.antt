-- ===== src/Values/Entries/Round.antt =====
-- JFormDB: what `setItem` wrote for a form is what `getItem` reads.
use jcontainers_ng.Common.{
  ℕ, ◌≤◌, ◌<◌, ◌≡◌, refl, ap, ◌∙◌, true, false, ◌==◌, Option, none, some, List, [], ◌∷◌, ◌++◌,
  length, arith, Bool-cases, inl, inr,
}
use jcontainers_ng.Item.{Item, blank, object_of}
use jcontainers_ng.Maps
use jcontainers_ng.Paths.{Store, map, name_lt, write}
use jcontainers_ng.Paths.Parse.{is_key_end}
use jcontainers_ng.Paths.Segments.{none_pass}
use jcontainers_ng.Values.Entries.{
  check_text, get_named, find_map_entry, storage_name_max, get_entry_item,
}
use jcontainers_ng.Values.Entries.Writing.{set_named, make_map_entry, set_entry_item}
use jcontainers_ng.Values.Entries.Keys.{entry_path, subpath_extractor-entry_path, none_pass-after}
use jcontainers_ng.Values.Entries.Chains.{
  set_named-map, find_map_entry-IsEntry, write-IsEntry, get_named-set_named,
}
use jcontainers_ng.Values.Entries.Made.{IsMade, make_map_entry-IsMade}

check_text-all :
    (name rest : List ℕ)
    → 0 < length name
    → none_pass (λ c. c == 0) (b'.' ∷ (name ++ rest)) ≡ true
    → check_text name ≡ true
unfolding none_pass
check_text-all [] rest k z = absurd (omega arith)
check_text-all (a ∷ name) rest k z = ground arith

-- The entry that was made or found is read through the root after a write into it.
read_back :
    {R T : Type 0} (read : Item R → T) (root form : ℕ) (name key : List ℕ) (val : Item R) (t : T)
    (r : Option ℕ × Store R)
    → IsMade root name form r
    → check_text key ≡ true
    → let s' = set_named r.1 r.0 (some key) val in
      get_named read s' (find_map_entry s' root (some name) form) (some key) t ≡ read val
read_back {R = R} read root form name key val t r (e, made, there, apart) ok =
    let set : Option ℕ → Store R = λ o. set_named r.1 o (some key) val in
    let items' = Maps.u_write name_lt blank there.items key (λ itm. val) in
    let found : find_map_entry (set (some e)) root (some name) form ≡ some e =
      ap (λ s. find_map_entry s root (some name) form)
        (set_named-map r.1 e there.items key val ok there.in_entry)
      ∙ find_map_entry-IsEntry (write r.1 e (map items')) root name form e
          (write-IsEntry r.1 root name form e items' apart there) in
    ap (λ o. get_named read (set o) (find_map_entry (set o) root (some name) form) (some key) t)
      made
    ∙ ap (λ o. get_named read (set (some e)) o (some key) t) found
    ∙ get_named-set_named read r.1 e there.items key val t ok there.in_entry

-- On a root that is a map, for a form that is not 0, when the storage that is there has an address in
-- use and the form's entry there is not the root: after `setItem` of JFormDB on the path of a key in a
-- storage (whose name is not empty, has at most 254 bytes and neither dots nor brackets, where the key
-- is not empty and the path has no zero byte), `getItem` on that path reads the item that was set,
-- whether the storage and the entry were there or were made.
pub get_entry_item-set_entry_item :
    {R T : Type 0} (read : Item R → T) (s : Store R) (root form : ℕ) (name : List ℕ) (c : ℕ)
    (key : List ℕ) (roots : List (List ℕ × Item R)) (val : Item R) (t : T)
    → s.objects root ≡ map roots
    → root < s.next_address
    → (form == 0) ≡ false
    → ((f : ℕ)
        → Maps.get_item name_lt check_text object_of (some roots) name none ≡ some f
        → f < s.next_address)
    → ¬ (find_map_entry s root (some name) form ≡ some root)
    → 0 < length name
    → length name ≤ storage_name_max
    → none_pass is_key_end name ≡ true
    → none_pass (λ c. c == 0) (entry_path name (c ∷ key)) ≡ true
    → let path = some (entry_path name (c ∷ key)) in
      get_entry_item read t (set_entry_item s root form path val) root form path ≡ read val
unfolding get_entry_item set_entry_item
get_entry_item-set_entry_item read s root form name c key roots val t in_root old h in_use other k l
      n z =
    let sub = subpath_extractor-entry_path name c key false k l n z in
    let not_zero = none_pass-after (λ c. c == 0) (b'.' ∷ name) b'.' c key z in
    let made =
      make_map_entry-IsMade root name form s roots in_root old
        (check_text-all name (b'.' ∷ c ∷ key) k z) h in_use
        (λ e entry. elim (Bool-cases (e == root)) [
          | inr differ ↦ differ
          | inl same ↦
              let eq : e ≡ root = ground arith in
              absurd (other (find_map_entry-IsEntry s root name form e entry ∙ ap some eq))
        ]) in
    rw sub (
      read_back read root form name (c ∷ key) val t (make_map_entry s root (some name) form) made
        (rw not_zero refl))
