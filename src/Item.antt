-- ===== src/Item.antt =====
-- src/JContainers/src/collections/item.h: the value that a container holds, with its readers and its
-- comparisons; and the collection operators of collections/operators.h. `Float32` is the parameter
-- `Reals`, an object is its address (none for a null pointer), and a text is its bytes.
pub mod Text
pub mod Order
pub mod Operators
pub mod Atomic
pub mod Tests
use jcontainers_ng.Common.{
  ℕ, Bool, true, false, Option, none, some, List, [], ltb, ◌==◌, if◌then◌else◌, ℤ, pos, ltb_ℤ,
  leb_ℤ, ◌&&◌,
}
use Text.{c_str, stricmp_lt, stricmp_eq}

-- `Float32` and the operations that the item uses.
pub record Reals : Type 1 where
  pub Real : Type 0
  pub from_int : ℤ → Real
  pub to_int : Real → ℤ
  pub real_lt : Real → Real → Bool
  pub real_eq : Real → Real → Bool

-- A form entry at the time of a call: its id, and whether its form was deleted.
pub record FormEntry : Type 0 where
  pub form_id : ℕ
  pub is_deleted : Bool

abbrev pub FormRef : Type 0
FormRef = Option FormEntry

-- `form_ref::get` in forms/form_observer.hpp: 0 for an expired reference.
abbrev pub form_get : FormRef → ℕ
form_get none = 0
form_get (some e) = if e.is_deleted then 0 else e.form_id

pub data Item (R : Type 0) : Type 0 where
  blank : Item R
  integer : ℤ → Item R
  real : R → Item R
  form : FormRef → Item R
  object : Option ℕ → Item R
  string : List ℕ → Item R

module _ {R : Type 0} where
  -- `type`: the index of the alternative, from `none = 1` on.
  abbrev pub type_of : Item R → ℕ
  type_of blank = 1
  type_of (integer n) = 2
  type_of (real x) = 3
  type_of (form f) = 4
  type_of (object o) = 5
  type_of (string s) = 6

  -- `item(object_base*)` and `_assignPtr`: a null pointer makes a blank item.
  abbrev pub from_object : Option ℕ → Item R
  from_object none = blank
  from_object (some o) = object (some o)

  abbrev pub from_chars : Option (List ℕ) → Item R
  from_chars none = blank
  from_chars (some s) = string (c_str s)

  abbrev pub from_bool : Bool → Item R
  from_bool true = integer (pos 1)
  from_bool false = integer (pos 0)

  abbrev pub object_of : Item R → Option ℕ
  object_of (object o) = o
  object_of _ = none

  abbrev pub u_nullify_object : Item R → Item R
  u_nullify_object (object o) = object none
  u_nullify_object i = i

  abbrev pub str_value : Item R → Option (List ℕ)
  str_value (string s) = some (c_str s)
  str_value _ = none

  abbrev pub form_id_of : Item R → ℕ
  form_id_of (form f) = form_get f
  form_id_of _ = 0

  -- `readAs` at texts and at form references; the other readers are the functions above and below.
  abbrev pub read_as_string : Item R → List ℕ
  read_as_string (string s) = s
  read_as_string _ = []

  abbrev pub read_as_string_ref : Item R → List ℕ
  read_as_string_ref i = elim (str_value i) [ none ↦ [] | some s ↦ s ]

  abbrev pub read_as_form_ref : Item R → FormRef
  read_as_form_ref (form f) = f
  read_as_form_ref _ = none

  abbrev pub is_null : Item R → Bool
  is_null blank = true
  is_null _ = false

  abbrev pub is_number : Item R → Bool
  is_number (integer n) = true
  is_number (real x) = true
  is_number _ = false

abbrev pub option_eq : Option ℕ → Option ℕ → Bool
option_eq none none = true
option_eq (some a) (some b) = a == b
option_eq _ _ = false

-- `std::less` on pointers: the null pointer is below all others.
abbrev pub option_lt : Option ℕ → Option ℕ → Bool
option_lt none (some b) = true
option_lt (some a) (some b) = ltb a b
option_lt _ none = false

abbrev pub eq_ℤ : ℤ → ℤ → Bool
eq_ℤ a b = leb_ℤ a b && leb_ℤ b a

module _ (r : Reals) where
  open r use {Real, from_int, to_int, real_lt, real_eq}

  abbrev pub flt_value : Item Real → Real
  flt_value (real x) = x
  flt_value (integer n) = from_int n
  flt_value _ = from_int (pos 0)

  abbrev pub int_value : Item Real → ℤ
  int_value (integer n) = n
  int_value (real x) = to_int x
  int_value _ = pos 0

  -- `isEqual`: values of two types are never equal.
  abbrev pub is_equal : Item Real → Item Real → Bool
  is_equal blank blank = true
  is_equal (integer m) (integer n) = eq_ℤ m n
  is_equal (real x) (real y) = real_eq x y
  is_equal (form f) (form g) = form_get f == form_get g
  is_equal (object o) (object p) = option_eq o p
  is_equal (string s) (string t) = stricmp_eq (c_str s) (c_str t)
  is_equal _ _ = false

  -- `lesser_comparison`, at two values of one type.
  abbrev pub lesser : Item Real → Item Real → Bool
  lesser (integer m) (integer n) = ltb_ℤ m n
  lesser (real x) (real y) = real_lt x y
  lesser (form f) (form g) = ltb (form_get f) (form_get g)
  lesser (object o) (object p) = option_lt o p
  lesser (string s) (string t) = stricmp_lt (c_str s) (c_str t)
  lesser _ _ = false

  unfoldable pub item_lt : Item Real → Item Real → Bool
  item_lt a b = if type_of a == type_of b then lesser a b else ltb (type_of a) (type_of b)
