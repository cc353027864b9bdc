-- ===== src/Paths.antt =====
-- src/JContainers/src/collections/access.h and access.cpp, `ca`: reading and writing the value that a
-- path names. A `Store` gives each address its container; references, locks and their owners are
-- those of the object system and play no part here. A text is its bytes.
pub mod Parse
pub mod Access
pub mod Segments
pub mod Walk
pub mod Constant
pub mod Assign
pub mod Create
pub mod Resolve
pub mod Solve
pub mod Missing
pub mod Fold
pub mod Rules
pub mod Finish
pub mod Tests
use jcontainers_ng.Common.{
  ℕ, zero, suc, ◌+◌, Bool, true, false, not, ◌&&◌, ◌||◌, ◌==◌, if◌then◌else◌, ltb, Option, none,
  some, List, [], ◌∷◌, ℤ, ltb_ℤ,
}
use jcontainers_ng.Item.{Item, FormRef, blank}
use jcontainers_ng.Item.Text.{c_str, stricmp_lt}
use jcontainers_ng.Array
use jcontainers_ng.Maps

-- `key_variant`
pub data Key : Type 0 where
  int_key : ℤ → Key
  string_key : List ℕ → Key
  form_key : FormRef → Key

-- The four kinds of `CollectionType`, with their contents.
pub data Container (R : Type 0) : Type 0 where
  array : List (Item R) → Container R
  map : List (List ℕ × Item R) → Container R
  form_map : List (FormRef × Item R) → Container R
  integer_map : List (ℤ × Item R) → Container R

-- The containers, and the first address that is not in use.
pub record Store (R : Type 0) : Type 0 where
  pub objects : ℕ → Container R
  pub next_address : ℕ

-- `map_case_insensitive_comp`
abbrev pub name_lt : List ℕ → List ℕ → Bool
name_lt lhs rhs = stricmp_lt (c_str lhs) (c_str rhs)

abbrev pub get_raw : FormRef → ℕ
get_raw none = 0
get_raw (some e) = e.form_id

abbrev pub is_expired : FormRef → Bool
is_expired none = true
is_expired (some e) = e.is_deleted

-- `form_ref::stable_less_comparer` compares pairs.
unfoldable pub form_lt : FormRef → FormRef → Bool
form_lt left right =
    ltb (get_raw left) (get_raw right)
    || ((get_raw left == get_raw right) && (not (is_expired left) && is_expired right))

-- `form_ref::get`
abbrev pub get_form : FormRef → ℕ
get_form none = 0
get_form (some e) = if e.is_deleted then 0 else e.form_id

-- The test of `form_map::_find` for a `form_ref_lightweight`, whose `get` is its identifier.
unfoldable pub matches_lightweight : FormRef → FormRef → Bool
matches_lightweight first k = get_form first == get_raw k

module _ {R : Type 0} where
  -- A key of another type than the container's finds nothing.
  unfoldable pub u_access_value : Container R → Key → Option (Item R)
  u_access_value (array xs) (int_key i) = Array.u_get xs i
  u_access_value (map m) (string_key s) = Maps.u_get name_lt m s
  u_access_value (form_map m) (form_key f) = Maps.u_get form_lt m f
  u_access_value (integer_map m) (int_key i) = Maps.u_get ltb_ℤ m i
  u_access_value _ _ = none

  -- `u_set` of an array.
  abbrev pub set_array : List (Item R) × Bool → Option (Container R)
  set_array (xs, true) = some (array xs)
  set_array (xs, false) = none

  -- `none` is a null pointer.
  unfoldable pub u_assign_value : Container R → Key → Item R → Option (Container R)
  u_assign_value (array xs) (int_key i) value = set_array (Array.u_set xs i value)
  u_assign_value (map m) (string_key s) value =
      some (map (Maps.u_write name_lt blank m s (λ itm. value)))
  u_assign_value (form_map m) (form_key f) value =
      some (form_map (Maps.u_write form_lt blank m f (λ itm. value)))
  u_assign_value (integer_map m) (int_key i) value =
      some (integer_map (Maps.u_write ltb_ℤ blank m i (λ itm. value)))
  u_assign_value _ _ value = none

  unfoldable pub u_erase_key : Container R → Key → Container R × Bool
  u_erase_key (array xs) (int_key i) = let r = Array.u_erase xs i in (array r.0, r.1)
  u_erase_key (map m) (string_key s) =
      let r = Maps.u_erase name_lt (Maps.by_order name_lt) m s in (map r.0, r.1)
  u_erase_key (form_map m) (form_key f) =
      let r = Maps.u_erase form_lt (Maps.by_order form_lt) m f in (form_map r.0, r.1)
  u_erase_key (integer_map m) (int_key i) =
      let r = Maps.u_erase ltb_ℤ (Maps.by_order ltb_ℤ) m i in (integer_map r.0, r.1)
  u_erase_key container _ = (container, false)

  abbrev pub write : Store R → ℕ → Container R → Store R
  write s a c = record s { objects = λ b. if a == b then c else s.objects b }
