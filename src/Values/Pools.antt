-- ===== src/Values/Pools.antt =====
-- The pools of JValue: arrays under a name in a map of the root, which own what is put in them.
use jcontainers_ng.Common.{
  ℕ, ◌+◌, ◌≡◌, refl, ◌==◌, arith, if◌then◌else◌, true, Option, none, some, List, [], ◌∷◌, ◌++◌,
}
use jcontainers_ng.Index.{Exec, done}
use jcontainers_ng.Item.{Item, blank, object, object_of, from_object}
use jcontainers_ng.Item.Text.{c_str}
use jcontainers_ng.Maps
use jcontainers_ng.Maps.{same}
use jcontainers_ng.Maps.Lookup.{is_sorted, u_get-u_erase}
use jcontainers_ng.Paths.Assign.{name_lt-IsComparer}
use jcontainers_ng.Forms.Strings.{Mods}
use jcontainers_ng.Paths.{array, map, form_map, integer_map, Store, name_lt, u_access_value, write}
use jcontainers_ng.Paths.Access.{AccessInfo, access_creative, when_found, write_item}

-- `JC_OBJECT_POOL_KEY`: "__tempPools"
abbrev pub object_pool_key : List ℕ
object_pool_key = b'_' ∷ b'_' ∷ b't' ∷ b'e' ∷ b'm' ∷ b'p' ∷ b'P' ∷ b'o' ∷ b'o' ∷ b'l' ∷ b's' ∷ []

module _ {R : Type 0} where
  -- `as<array>()` and `as<map>()` of an object that may be none, with the contents.
  unfoldable pub as_array : Store R → Option ℕ → Option (ℕ × List (Item R))
  as_array s none = none
  as_array s (some a) = elim (s.objects a) [
    | array xs ↦ some (a, xs)
    | map m ↦ none
    | form_map m ↦ none
    | integer_map m ↦ none
  ]

  unfoldable pub as_map : Store R → Option ℕ → Option (ℕ × List (List ℕ × Item R))
  as_map s none = none
  as_map s (some a) = elim (s.objects a) [
    | array xs ↦ none
    | map m ↦ some (a, m)
    | form_map m ↦ none
    | integer_map m ↦ none
  ]

  -- The array of a pool, which is made when the item holds none.
  unfoldable pub location : Mods → Store R → AccessInfo → Item R → (ℕ × List (Item R)) × Store R
  location mods s info value = elim (as_array s (object_of value)) [
    | some loc ↦ (loc, s)
    | none ↦
        let a = s.next_address in
        let made = record (write s a (array [])) { next_address = a + 1 } in
        ((a, []), (write_item mods made info (object (some a))).1)
  ]

  unfoldable pub push_item : (ℕ × List (Item R)) × Store R → Option ℕ → Store R
  push_item r obj = write r.1 r.0.0 (array (r.0.1 ++ (from_object obj ∷ [])))

  -- The store after the call; an outer `none` is fuel that ran out.
  unfoldable pub add_to_pool :
      Mods → Store R → ℕ → Option ℕ → Option (List ℕ) → Exec (Option (Store R))
  add_to_pool mods s root obj none = done (some s)
  add_to_pool mods s root obj (some pool_name) =
      let path = b'.' ∷ (object_pool_key ++ (b'.' ∷ c_str pool_name)) in
      when_found (access_creative mods s root (some path)) (λ s'. done (some s'))
        (λ info s'. elim (u_access_value (s'.objects info.collection) info.key) [
          | none ↦ done (some s')
          | some value ↦ done (some (push_item (location mods s' info value) obj))
        ])

  unfoldable pub find_or_def : Store R → ℕ → List ℕ → Option ℕ
  find_or_def s root key = elim (as_map s (some root)) [
    | none ↦ none
    | some r ↦ elim (Maps.u_get name_lt r.1 key) [ none ↦ none | some itm ↦ object_of itm ]
  ]

  unfoldable pub clean_pool : Store R → ℕ → Option (List ℕ) → Store R
  clean_pool s root none = s
  clean_pool s root (some pool_name) = elim (as_map s (find_or_def s root object_pool_key)) [
    | none ↦ s
    | some locations ↦
        write s locations.0
          (map (Maps.u_erase name_lt (Maps.by_order name_lt) locations.1 (c_str pool_name)).0)
  ]

  -- After `clean_pool` the pools that are in their order have no entry that the comparer does not
  -- tell apart from the name, and the other entries are as before.
  clean_pool-u_get :
      (s : Store R) (root p : ℕ) (pools : List (List ℕ × Item R)) (pool_name q : List ℕ)
      → find_or_def s root object_pool_key ≡ some p
      → s.objects p ≡ map pools
      → is_sorted name_lt pools ≡ true
      → (pools' : List (List ℕ × Item R)) × ((clean_pool s root (some pool_name)).objects p
          ≡ map pools')
        × (Maps.u_get name_lt pools' q
            ≡ (if same name_lt (c_str pool_name) q then none else Maps.u_get name_lt pools q))
  unfolding clean_pool as_map
  clean_pool-u_get s root p pools pool_name q found e sorted =
      let self : (p == p) ≡ true = ground arith in
      (
        (Maps.u_erase name_lt (Maps.by_order name_lt) pools (c_str pool_name)).0,
        rw (found, clean_pool, as_map) (rw e (rw self refl)),
        u_get-u_erase name_lt name_lt-IsComparer blank (Maps.by_order name_lt) pools
            (c_str pool_name) q (λ k before. refl) sorted,
      )
