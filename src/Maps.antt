-- ===== src/Maps.antt =====
-- src/JContainers/src/api_3/tes_map.h, the script interface of JMap, JFormMap and JIntMap, with
-- `map_functions_templ` (collections/functions.h) and `basic_map_collection`
-- (collections/collections_types.h). A `std::map` is the list of its pairs in the order of its
-- comparer `lt`, a map that may be null is an option, and `ok` is `map_key_checker::check`.
pub mod Lookup
pub mod Nth
pub mod Tests
use jcontainers_ng.Common.{
  ℕ, zero, suc, ◌+◌, ◌-◌, ◌/◌, Bool, true, false, not, ◌&&◌, ◌||◌, Option, none, some, List, [],
  ◌∷◌, reverse, map, ltb, ◌==◌, if◌then◌else◌, length, get_elem?, ℤ, pos, negsuc,
}
use jcontainers_ng.Index.{Exec, done, fault, convert_read_index}

-- Two keys that the comparer does not tell apart.
abbrev pub same {ℓ} : {K : Type ℓ} → (K → K → Bool) → K → K → Bool
same lt a b = not (lt a b) && not (lt b a)

module _ {K : Type 0} {V : Type 0} (lt : K → K → Bool) where
  -- `_find` and what follows it in the order, of a key that is not None in a `form_map`.
  unfoldable pub u_find_iterator : List (K × V) → K → Option ((K × V) × List (K × V))
  u_find_iterator [] key = none
  u_find_iterator ((k, v) ∷ m) key =
      let rest = u_find_iterator m key in
      if lt k key then rest else (if lt key k then none else some ((k, v), m))

  unfoldable pub u_get : List (K × V) → K → Option V
  u_get [] key = none
  u_get ((k, v) ∷ m) key =
      let rest = u_get m key in if lt k key then rest else (if lt key k then none else some v)

  -- `cnt[key]` with the operation that writes into the item; a new item is `blank` at first.
  unfoldable pub u_write : V → List (K × V) → K → (V → V) → List (K × V)
  u_write blank [] key op = (key, op blank) ∷ []
  u_write blank ((k, v) ∷ m) key op =
      let rest = u_write blank m key op in
      if lt k key
      then (k, v) ∷ rest
      else (if lt key k then (key, op blank) ∷ (k, v) ∷ m else (k, op v) ∷ m)

  -- `std::map::insert` leaves an item that is there.
  unfoldable pub u_insert : List (K × V) → K → V → List (K × V)
  u_insert m key v = elim (u_get m key) [ none ↦ u_write v m key (λ w. w) | some _ ↦ m ]

  module _ (ok : K → Bool) where
    unfoldable pub do_read_op_r {ℓ} : {R : Type ℓ} → Option (List (K × V)) → K → R → (V → R) → R
    do_read_op_r none key r_default operation = r_default
    do_read_op_r (some m) key r_default operation =
        if ok key
        then (elim (u_get m key) [ none ↦ r_default | some itm ↦ operation itm ])
        else r_default

    unfoldable pub do_write_op : V → Option (List (K × V)) → K → (V → V) → Option (List (K × V))
    do_write_op blank none key operation = none
    do_write_op blank (some m) key operation =
        some (if ok key then u_write blank m key operation else m)

    -- `getItem`; `read` is `readAs` at the type that is asked for.
    abbrev pub get_item {ℓ} : {T : Type ℓ} → (V → T) → Option (List (K × V)) → K → T → T
    get_item read obj key t = do_read_op_r obj key t read

    -- `setItem`, of a value that was made an item.
    abbrev pub set_item : V → Option (List (K × V)) → K → V → Option (List (K × V))
    set_item blank obj key val = do_write_op blank obj key (λ itm. val)

    -- `insertItem`; `wrap` makes an item.
    unfoldable pub insert_item {ℓ} :
        {T : Type ℓ}
        → (V → T)
        → (T → V)
        → T
        → V
        → Option (List (K × V))
        → K
        → T
        → Option (List (K × V)) × T
    insert_item read wrap default_value blank none key val = (none, default_value)
    insert_item read wrap default_value blank (some m) key val =
        if ok key
        then (elim (u_get m key) [
          | none ↦ (some (u_write blank m key (λ itm. wrap val)), val)
          | some i ↦ (some m, read i)
        ])
        else (some m, default_value)

    -- `valueType`, where 0 is `no_item`.
    abbrev pub value_type : (V → ℕ) → Option (List (K × V)) → K → ℕ
    value_type type obj key = do_read_op_r obj key 0 type

    abbrev pub has_key : (V → ℕ) → Option (List (K × V)) → K → Bool
    has_key type obj key = not (value_type type obj key == 0)

    -- `nextKey`; `none` is a call that does not reach `keyFunc`.
    unfoldable pub next_key : Option (List (K × V)) → K → Option K
    next_key none last_key = none
    next_key (some m) last_key =
        if ok last_key
        then (elim (u_find_iterator m last_key) [ some (p, q ∷ m') ↦ some q.0 | _ ↦ none ])
        else (elim m [ [] ↦ none | p ∷ m' ↦ some p.0 ])

  unfoldable pub write_pairs : V → List (K × V) → List (K × V) → List (K × V)
  write_pairs blank m [] = m
  write_pairs blank m ((k, v) ∷ source) = write_pairs blank (u_write blank m k (λ itm. v)) source

  unfoldable pub insert_pairs : List (K × V) → List (K × V) → List (K × V)
  insert_pairs m [] = m
  insert_pairs m ((k, v) ∷ source) = insert_pairs (u_insert m k v) source

  -- `addPairs` of two maps that are not the same object.
  unfoldable pub add_pairs :
      V → Option (List (K × V)) → Option (List (K × V)) → Bool → Option (List (K × V))
  add_pairs blank none source override_duplicates = none
  add_pairs blank (some m) none override_duplicates = some m
  add_pairs blank (some m) (some source) override_duplicates =
      some (if override_duplicates then write_pairs blank m source else insert_pairs m source)

  -- The first key that is not the end key.
  unfoldable pub first_other : (K → K → Bool) → List (K × V) → K → K
  first_other key_equality [] end_key = end_key
  first_other key_equality ((k, v) ∷ m) end_key =
      let rest = first_other key_equality m end_key in if key_equality k end_key then rest else k

  -- `nextKey_forPapyrus`
  unfoldable pub next_key_for_papyrus : (K → K → Bool) → Option (List (K × V)) → K → K → K
  next_key_for_papyrus key_equality none last_key end_key = end_key
  next_key_for_papyrus key_equality (some m) last_key end_key =
      if key_equality last_key end_key
      then first_other key_equality m end_key
      else (elim (u_find_iterator m last_key) [
        | none ↦ end_key
        | some (p, m') ↦ first_other key_equality m' end_key
      ])

-- `_find` takes the first key that is not before the one it looks for, if it `matches` it. A lookup by
-- the map's own kind of key matches what the comparer does not tell apart.
abbrev pub by_order {ℓ} : {K : Type ℓ} → (K → K → Bool) → K → K → Bool
by_order lt k key = not (lt key k)

module _ {K : Type 0} {V : Type 0} (lt : K → K → Bool) (matches : K → K → Bool) where
  unfoldable pub u_erase : List (K × V) → K → List (K × V) × Bool
  u_erase [] key = ([], false)
  u_erase ((k, v) ∷ m) key =
      let rest = u_erase m key in
      if lt k key
      then ((k, v) ∷ rest.0, rest.1)
      else (if matches k key then (m, true) else ((k, v) ∷ m, false))

  -- `removeKey` does not check the key.
  unfoldable pub remove_key : Option (List (K × V)) → K → Option (List (K × V)) × Bool
  remove_key none key = (none, false)
  remove_key (some m) key = let r = u_erase m key in (some r.0, r.1)

module _ {K : Type 0} {V : Type 0} where
  -- `allKeys` and `allValues`.
  abbrev pub all_keys : Option (List (K × V)) → Option (List K)
  all_keys none = none
  all_keys (some m) = some (map (λ p. p.0) m)

  abbrev pub all_values : Option (List (K × V)) → Option (List V)
  all_values none = none
  all_values (some m) = some (map (λ p. p.1) m)

  -- A walk of so many steps, and the key it ends at.
  unfoldable pub key_after : List (K × V) → ℕ → Exec K
  key_after [] n = fault
  key_after ((k, v) ∷ m) zero = done k
  key_after ((k, v) ∷ m) (suc n) = key_after m n

  -- `getNthKey` walks from the nearer end; from a negative index it leaves the map.
  unfoldable pub get_nth_key : Option (List (K × V)) → ℤ → Exec (Option K)
  get_nth_key none key_idx = done none
  get_nth_key (some m) key_idx = elim (convert_read_index (length m) key_idx) [
    | none ↦ done none
    | some (negsuc i) ↦ fault
    | some (pos i) ↦
        elim (if ltb i (length m / 2)
          then key_after m i
          else key_after (reverse m) (length m - 1 - i)) [ done k ↦ done (some k) | fault ↦ fault ]
  ]
