-- ===== src/Values/Entries/Writing.antt =====
-- src/JContainers/src/api_3/tes_form_db.h, JFormDB: the functions that make and change the entries of
-- forms, with JDB.setObj of api_3/tes_db.h. A map that may be null is an address with its contents.
use jcontainers_ng.Common.{
  ℕ, ◌+◌, Bool, true, false, not, ◌==◌, if◌then◌else◌, Option, none, some, List, [],
}
use jcontainers_ng.Index.{Exec}
use jcontainers_ng.Item.{Item, blank, object, object_of, FormRef}
use jcontainers_ng.Forms.Strings.{Mods}
use jcontainers_ng.Maps
use jcontainers_ng.Paths.{Store, map, form_map, name_lt, form_lt, matches_lightweight, write}
use jcontainers_ng.Paths.Parse.{make_weak_form_id}
use jcontainers_ng.Values.{solve_setter}
use jcontainers_ng.Values.Pools.{as_map}
use jcontainers_ng.Values.Entries.{
  check_text, is_form, get_named, as_form_map, subpath_extractor, storage_name_of, rest_of,
}

module _ {R : Type 0} where
  -- `tes_map::setItem` and `tes_form_map::setItem`.
  abbrev pub set_text : Store R → Option (ℕ × List (List ℕ × Item R)) → List ℕ → Item R → Store R
  set_text s none key val = s
  set_text s (some (a, m)) key val =
      if check_text key then write s a (map (Maps.u_write name_lt blank m key (λ itm. val))) else s

  abbrev pub set_form : Store R → Option (ℕ × List (FormRef × Item R)) → ℕ → Item R → Store R
  set_form s none form val = s
  set_form s (some (a, m)) form val =
      let key = make_weak_form_id form in
      if is_form key
      then write s a (form_map (Maps.u_write form_lt blank m key (λ itm. val)))
      else s

  abbrev pub set_named : Store R → Option ℕ → Option (List ℕ) → Item R → Store R
  set_named s obj none val = s
  set_named s obj (some key) val = set_text s (as_map s obj) key val

  -- JDB.setObj, of a path that is not null.
  unfoldable pub set_obj : Store R → ℕ → List ℕ → Option ℕ → Store R
  set_obj s root path (some obj) = set_text s (as_map s (some root)) path (object (some obj))
  set_obj s root path none = elim (as_map s (some root)) [
    | none ↦ s
    | some db ↦ write s db.0 (map (Maps.u_erase name_lt (Maps.by_order name_lt) db.1 path).0)
  ]

  -- The storage that was found, or a new one.
  unfoldable pub storage_or_new :
      Store R
      → ℕ
      → List ℕ
      → Option (ℕ × List (FormRef × Item R))
      → Option (ℕ × List (FormRef × Item R)) × Store R
  storage_or_new s root storage_name (some fmap) = (some fmap, s)
  storage_or_new s root storage_name none =
      let a = s.next_address in
      let made = record (write s a (form_map [])) { next_address = a + 1 } in
      (some (a, []), set_obj made root storage_name (some a))

  -- `check_text` is `validate_storage_name`.
  unfoldable pub make_form_storage :
      Store R → ℕ → Option (List ℕ) → Option (ℕ × List (FormRef × Item R)) × Store R
  make_form_storage s root none = (none, s)
  make_form_storage s root (some storage_name) =
      if check_text storage_name
      then storage_or_new s root storage_name
          (as_form_map s (get_named object_of s (some root) (some storage_name) none))
      else (none, s)

  unfoldable pub remove_entry : Store R → Option (ℕ × List (FormRef × Item R)) → ℕ → Store R
  remove_entry s none form = s
  remove_entry s (some (a, m)) form =
      write s a (form_map (Maps.u_erase form_lt matches_lightweight m (make_weak_form_id form)).0)

  unfoldable pub set_entry : Store R → ℕ → Option (List ℕ) → ℕ → Option ℕ → Store R
  set_entry s root none form entry = s
  set_entry s root (some storage_name) form entry =
      if not (check_text storage_name) then s else if form == 0 then s else (elim entry [
        | some e ↦
            let r = make_form_storage s root (some storage_name) in
            set_form r.1 r.0 form (object (some e))
        | none ↦
            remove_entry s
              (as_form_map s (get_named object_of s (some root) (some storage_name) none)) form
      ])

  -- The entry that was found, or a new one.
  unfoldable pub entry_or_new :
      Store R
      → ℕ × List (FormRef × Item R)
      → ℕ
      → Option (ℕ × List (List ℕ × Item R))
      → Option ℕ × Store R
  entry_or_new s fmap form (some entry) = (some entry.0, s)
  entry_or_new s fmap form none =
      let a = s.next_address in
      let made = record (write s a (map [])) { next_address = a + 1 } in
      (some a, set_form made (some fmap) form (object (some a)))

  -- A storage that is null is one whose name was refused.
  unfoldable pub entry_in : Option (ℕ × List (FormRef × Item R)) × Store R → ℕ → Option ℕ × Store R
  entry_in (none, s) form = (none, s)
  entry_in (some fmap, s) form = entry_or_new s fmap form (
      as_map s
        (Maps.get_item form_lt is_form object_of (some fmap.1) (make_weak_form_id form) none))

  unfoldable pub make_map_entry : Store R → ℕ → Option (List ℕ) → ℕ → Option ℕ × Store R
  make_map_entry s root storage_name form =
      if form == 0 then (none, s) else entry_in (make_form_storage s root storage_name) form

  unfoldable pub set_entry_item : Store R → ℕ → ℕ → Option (List ℕ) → Item R → Store R
  set_entry_item s root form path val =
      let sub = subpath_extractor path false in
      let r = make_map_entry s root (storage_name_of sub) form in
      set_named r.1 r.0 (rest_of sub) val

  unfoldable pub solve_entry_setter :
      Mods → Store R → ℕ → ℕ → Option (List ℕ) → Item R → Bool → Exec (Option (Bool × Store R))
  solve_entry_setter mods s root form path value create_missing_keys =
      let sub = subpath_extractor path true in
      let r = make_map_entry s root (storage_name_of sub) form in
      solve_setter mods r.1 r.0 (rest_of sub) value create_missing_keys
