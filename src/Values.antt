-- ===== src/Values.antt =====
-- src/JContainers/src/api_3/tes_object.h: the functions of JValue that read and write containers. The
-- object of a script is an address or none. Lifetimes and tags are those of the object
-- system, and not modelled here.
pub mod Solve
pub mod Entries
pub mod Pools
pub mod Tests
use jcontainers_ng.Common.{
  ℕ, zero, suc, Bool, true, false, not, ◌==◌, if◌then◌else◌, Option, none, some, List, [], ◌∷◌,
  length,
}
use jcontainers_ng.Index.{Exec, done, fault, ◌>>=◌}
use jcontainers_ng.Item.{Reals, Item, type_of}
use jcontainers_ng.Forms.Strings.{Mods}
use jcontainers_ng.Paths.{Container, array, map, form_map, integer_map, Store, write}
use jcontainers_ng.Paths.Access.{AccessWay, constant, creative, get, assign}
use jcontainers_ng.Paths.Resolve.{Visits, resolve}
use jcontainers_ng.Copying
use jcontainers_ng.Copying.{Copying, items_of, with_items}

unfoldable pub is_exists : Option ℕ → Bool
is_exists none = false
is_exists (some obj) = true

module _ {R : Type 0} where
  unfoldable pub shallow_copy : Store R → Option ℕ → Option ℕ × Store R
  shallow_copy s none = (none, s)
  shallow_copy s (some obj) = let r = Copying.shallow_copy s obj in (some r.0, r.1)

  -- An outer `none` is fuel that ran out.
  unfoldable pub deep_copy : Store R → Option ℕ → Option (Option ℕ × Store R)
  deep_copy s none = some (none, s)
  deep_copy s (some obj) = elim (Copying.deep_copy s obj) [
    | none ↦ none
    | some r ↦ some (some r.0, r.1.store)
  ]

  unfoldable pub count : Store R → Option ℕ → ℕ
  count s none = 0
  count s (some obj) = length (items_of (s.objects obj))

  unfoldable pub empty : Store R → Option ℕ → Bool
  empty s obj = count s obj == 0

  unfoldable pub clear : Store R → Option ℕ → Store R
  clear s none = s
  clear s (some obj) = write s obj (with_items (s.objects obj) [])

  abbrev pub type_or_none : Option (Item R) → ℕ
  type_or_none none = 0
  type_or_none (some itm) = type_of itm

  module _ (mods : Mods) (s : Store R) where
    -- `visit_value` with a function that only reads the item is `get`; 0 is `no_item`.
    unfoldable pub solved_value_type : Option ℕ → Option (List ℕ) → Exec (Option ℕ)
    solved_value_type (some obj) (some path) = get mods s obj (some path) >>= λ found. elim found [
      | none ↦ done none
      | some v ↦ done (some (type_or_none v))
    ]
    solved_value_type _ _ = done (some 0)

    unfoldable pub has_path : Option ℕ → Option (List ℕ) → Exec (Option Bool)
    has_path obj path = solved_value_type obj path >>= λ found. elim found [
      | none ↦ done none
      | some type ↦ done (some (not (type == 0)))
    ]

    unfoldable pub solve_setter :
        Option ℕ → Option (List ℕ) → Item R → Bool → Exec (Option (Bool × Store R))
    solve_setter (some obj) (some path) value create_missing_keys =
        assign mods s obj (some path) value (if create_missing_keys then creative else constant)
    solve_setter _ _ value create_missing_keys = done (some (false, s))

module _ (r : Reals) (mods : Mods) where
  open r use {Real}

  -- `val`, after each item that is visited was read into it.
  module _ {ℓ} {T : Type ℓ} (read_as : Item Real → T) where
    unfoldable pub read_each : Visits r → T → T
    read_each [] val = val
    read_each (none ∷ visits) val = read_each visits val
    read_each (some itm ∷ visits) val = read_each visits (read_as itm)

    unfoldable pub resolve_getter : Store Real → Option ℕ → Option (List ℕ) → T → Exec (Option T)
    resolve_getter s (some obj) (some path) val =
        resolve r mods s (some obj) (some path) >>= λ found. elim found [
          | none ↦ done none
          | some visits ↦ done (some (read_each visits val))
        ]
    resolve_getter s _ _ val = done (some val)
