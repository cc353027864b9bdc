-- ===== src/Item/Tests.antt =====
-- Runs of the comparisons of collections/item.h and the operators of collections/operators.h, with
-- numbers for the floats.
use jcontainers_ng.Common.{
  ℕ, ◌≡◌, refl, true, false, ◌||◌, not, ◌&&◌, List, [], ◌∷◌, arith, ltb, ◌==◌, ℤ, pos, pos_part,
}
use jcontainers_ng.Item.{Reals, Item, blank, integer, real, item_lt}
use jcontainers_ng.Item.{is_null}
use jcontainers_ng.Common.{Option, none, some}
use jcontainers_ng.Item.Order.{IsOrdered}

below_irrefl : (a : ℕ) → ltb a a ≡ false
below_irrefl a = ground arith

below_split : (a b c : ℕ) → ltb a c ≡ true → (ltb a b || ltb b c) ≡ true
below_split a b c h = ground arith

below_asym : (a b : ℕ) → ltb a b ≡ true → ltb b a ≡ false
below_asym a b h = ground arith

same_incomparable : (a b : ℕ) → (a == b) ≡ (not (ltb a b) && not (ltb b a))
same_incomparable a b = ground arith

abbrev whole : Reals
whole = record {
  Real = ℕ;
  from_int = pos_part;
  to_int = pos;
  real_lt = ltb;
  real_eq = λ a b. a == b;
}

whole-IsOrdered : IsOrdered whole
whole-IsOrdered = record {
  real_irrefl = below_irrefl;
  real_split = below_split;
  real_asym = below_asym;
  real_incomparable = same_incomparable;
}

integer_below : item_lt whole (integer (pos 9)) (real 3) ≡ true
unfolding item_lt
integer_below = refl

abbrev mixed : List (Item ℕ)
mixed = integer (pos 4) ∷ real 9 ∷ integer (pos 7) ∷ blank ∷ []

-- `item::get` at integers.
abbrev get_integer : Item ℕ → Option ℤ
get_integer (integer n) = some n
get_integer _ = none

integer_back : (n : ℤ) → get_integer (integer n) ≡ some n
integer_back n = refl

integer_full : (n : ℤ) → is_null {R = ℕ} (integer n) ≡ false
integer_full n = refl
