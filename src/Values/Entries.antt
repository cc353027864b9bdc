-- ===== src/Values/Entries.antt =====
-- src/JContainers/src/api_3/tes_form_db.h, JFormDB: the functions that read the entries of forms,
-- which stand in the storages of the root, with half_split_if of boost_extras.h. A form is its
-- identifier.
pub mod Keys
pub mod Writing
pub mod Chains
pub mod Made
pub mod Round
use jcontainers_ng.Common.{
  ℕ, Bool, false, true, not, ◌==◌, if◌then◌else◌, Option, none, some, List, [], ◌∷◌, take,
}
use jcontainers_ng.Index.{Exec}
use jcontainers_ng.Item.{Reals, Item, object_of, FormRef}
use jcontainers_ng.Item.Text.{c_str}
use jcontainers_ng.Forms.Strings.{Mods}
use jcontainers_ng.Maps
use jcontainers_ng.Paths.{Store, array, map, form_map, integer_map, name_lt, form_lt, get_raw}
use jcontainers_ng.Paths.Parse.{find_if, is_key_end, make_weak_form_id}
use jcontainers_ng.Values.{has_path, resolve_getter}
use jcontainers_ng.Values.Pools.{as_map}

-- The two parts without the byte that was found, or two empty ones.
abbrev pub drop_location : List ℕ × List ℕ → List ℕ × List ℕ
drop_location (before, []) = ([], [])
drop_location (before, c ∷ second) = (before, second)

-- `half_split_if`, and `half_split` where the text that is looked for is one byte.
unfoldable pub half_split_if : (ℕ → Bool) → List ℕ → List ℕ × List ℕ
half_split_if cond input = drop_location (find_if cond input)

-- What `subpath_extractor` keeps; both pointers are null in `none`.
pub record Subpath : Type 0 where
  pub storage_name : List ℕ
  pub rest : List ℕ

-- `bytesCount - 1`
abbrev pub storage_name_max : ℕ
storage_name_max = 254

-- The byte that the path was split at, and what follows it: `pair2.second.begin() - 1`.
abbrev pub from_separator : List ℕ → List ℕ
from_separator input = (find_if is_key_end input).1

-- From the two parts of what follows the first dot.
unfoldable pub name_and_rest : Bool → List ℕ → List ℕ × List ℕ → Option Subpath
name_and_rest is_path input (a ∷ first, b ∷ second) = some (record {
  storage_name = take storage_name_max (a ∷ first);
  rest = if is_path then from_separator input else b ∷ second;
})
name_and_rest is_path input _ = none

unfoldable pub after_dot : Bool → List ℕ × List ℕ → Option Subpath
after_dot is_path ([], b ∷ second) =
    name_and_rest is_path (b ∷ second) (half_split_if is_key_end (b ∷ second))
after_dot is_path _ = none

-- `is_path` is the second argument, which is `is_key` where the callers leave it out.
unfoldable pub subpath_extractor : Option (List ℕ) → Bool → Option Subpath
subpath_extractor none is_path = none
subpath_extractor (some path) is_path =
    after_dot is_path (half_split_if (λ c. c == b'.') (c_str path))

abbrev pub storage_name_of : Option Subpath → Option (List ℕ)
storage_name_of none = none
storage_name_of (some sub) = some sub.storage_name

abbrev pub rest_of : Option Subpath → Option (List ℕ)
rest_of none = none
rest_of (some sub) = some sub.rest

-- `map_key_checker::check` of a text that is there.
abbrev pub check_text : List ℕ → Bool
check_text [] = false
check_text (c ∷ s) = not (c == 0)

-- `check` of a `form_ref_lightweight`.
abbrev pub is_form : FormRef → Bool
is_form f = not (get_raw f == 0)

abbrev pub contents_of {ℓ} : {A : Type ℓ} → Option (ℕ × A) → Option A
contents_of none = none
contents_of (some r) = some r.1

abbrev pub address_of {ℓ} : {A : Type ℓ} → Option (ℕ × A) → Option ℕ
address_of none = none
address_of (some r) = some r.0

module _ {R : Type 0} where
  -- `as<form_map>()`
  unfoldable pub as_form_map : Store R → Option ℕ → Option (ℕ × List (FormRef × Item R))
  as_form_map s none = none
  as_form_map s (some a) = elim (s.objects a) [
    | array xs ↦ none
    | map m ↦ none
    | form_map m ↦ some (a, m)
    | integer_map m ↦ none
  ]

  -- `tes_map::getItem` of a key that may be null.
  abbrev pub get_named {ℓ} :
      {T : Type ℓ} → (Item R → T) → Store R → Option ℕ → Option (List ℕ) → T → T
  get_named read s obj none t = t
  get_named read s obj (some key) t =
      Maps.get_item name_lt check_text read (contents_of (as_map s obj)) key t

  unfoldable pub find_entry : Store R → ℕ → Option (List ℕ) → ℕ → Option ℕ
  find_entry s root storage_name form =
      let fmap = as_form_map s (get_named object_of s (some root) storage_name none) in
      Maps.get_item form_lt is_form object_of (contents_of fmap) (make_weak_form_id form) none

  unfoldable pub find_map_entry : Store R → ℕ → Option (List ℕ) → ℕ → Option ℕ
  find_map_entry s root storage_name form =
      address_of (as_map s (find_entry s root storage_name form))

  unfoldable pub has_entry_path : Mods → Store R → ℕ → ℕ → Option (List ℕ) → Exec (Option Bool)
  has_entry_path mods s root form path =
      let sub = subpath_extractor path false in
      has_path mods s (find_map_entry s root (storage_name_of sub) form) (rest_of sub)

  -- `getItem`, with the default value of the type.
  unfoldable pub get_entry_item {ℓ} :
      {T : Type ℓ} → (Item R → T) → T → Store R → ℕ → ℕ → Option (List ℕ) → T
  get_entry_item read default_value s root form path =
      let sub = subpath_extractor path false in
      get_named read s (find_map_entry s root (storage_name_of sub) form) (rest_of sub)
        default_value

module _ (r : Reals) (mods : Mods) {T : Type 0} (read_as : Item r.Real → T) where
  open r use {Real}

  unfoldable pub solve_entry_getter : Store Real → ℕ → ℕ → Option (List ℕ) → T → Exec (Option T)
  solve_entry_getter s root form path t =
      let sub = subpath_extractor path true in
      resolve_getter r mods read_as s (find_entry s root (storage_name_of sub) form) (rest_of sub) t
