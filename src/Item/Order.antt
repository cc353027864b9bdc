-- ===== src/Item/Order.antt =====
-- The order on items, for sorting.
use jcontainers_ng.Common.{◌≡◌, refl, true, false, not, ◌&&◌, ◌||◌, none, some, arith}
use jcontainers_ng.Item.{Reals, Item, blank, integer, real, form, object, string, item_lt, is_equal}
use jcontainers_ng.Item.Text.{
  c_str, stricmp_lt_irrefl, stricmp_lt_split, stricmp_lt_asym, stricmp_eq_incomparable,
}
use jcontainers_ng.Array.Sets.{Order}

-- No value is a NaN: `<` on the floats is a strict weak order, and `==` means that neither is less.
pub record IsOrdered (r : Reals) : Type 0 where
  pub real_irrefl : (x : r.Real) → r.real_lt x x ≡ false
  pub real_split : (x y z : r.Real) → r.real_lt x z ≡ true → (r.real_lt x y || r.real_lt y z) ≡ true
  pub real_asym : (x y : r.Real) → r.real_lt x y ≡ true → r.real_lt y x ≡ false
  pub real_incomparable :
      (x y : r.Real) → r.real_eq x y ≡ (not (r.real_lt x y) && not (r.real_lt y x))

module _ (r : Reals) (o : IsOrdered r) where
  open r use {Real}

  lt_irrefl : (a : Item Real) → item_lt r a a ≡ false
  unfolding item_lt
  lt_irrefl blank = refl
  lt_irrefl (integer n) = ground arith
  lt_irrefl (real x) = o.real_irrefl x
  lt_irrefl (form f) = ground arith
  lt_irrefl (object none) = refl
  lt_irrefl (object (some p)) = ground arith
  lt_irrefl (string s) = stricmp_lt_irrefl (c_str s)

  lt_asym : (a b : Item Real) → item_lt r a b ≡ true → item_lt r b a ≡ false
  unfolding item_lt
  lt_asym (integer m) (integer n) h = ground arith
  lt_asym (real x) (real y) h = o.real_asym x y h
  lt_asym (form f) (form g) h = ground arith
  lt_asym (object p) (object q) h = ground arith
  lt_asym (string s) (string t) h = stricmp_lt_asym (c_str s) (c_str t) h
  lt_asym a b h = ground arith

  -- With floats that are no NaN: items are equal exactly when neither is less than the other.
  pub is_equal-incomparable :
      (a b : Item Real) → is_equal r a b ≡ (not (item_lt r a b) && not (item_lt r b a))
  unfolding item_lt
  is_equal-incomparable (integer m) (integer n) = ground arith
  is_equal-incomparable (real x) (real y) = o.real_incomparable x y
  is_equal-incomparable (form f) (form g) = ground arith
  is_equal-incomparable (object p) (object q) = ground arith
  is_equal-incomparable (string s) (string t) = stricmp_eq_incomparable (c_str s) (c_str t)
  is_equal-incomparable a b = ground arith

  -- With floats that are no NaN: an item that is less than another is less than any third one, or
  -- the third is less than the other.
  pub item_lt-split :
      (a b c : Item Real) → item_lt r a c ≡ true → (item_lt r a b || item_lt r b c) ≡ true
  unfolding item_lt
  item_lt-split (integer m) (integer n) (integer k) h = ground arith
  item_lt-split (real x) (real y) (real z) h = o.real_split x y z h
  item_lt-split (form f) (form g) (form k) h = ground arith
  item_lt-split (object p) (object q) (object k) h = ground arith
  item_lt-split (string s) (string t) (string u) h =
      stricmp_lt_split (c_str s) (c_str t) (c_str u) h
  item_lt-split a b c h = ground arith

  -- Items of all types stand in one strict weak order, and equal items are the incomparable ones.
  pub item_order : Order (Item Real)
  item_order = record {
    lt = item_lt r;
    eq = is_equal r;
    lt_irrefl = lt_irrefl;
    lt_split = item_lt-split;
    lt_asym = lt_asym;
    eq_incomparable = is_equal-incomparable;
  }
