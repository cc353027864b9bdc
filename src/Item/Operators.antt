-- ===== src/Item/Operators.antt =====
-- src/JContainers/src/collections/operators.h: the operators that fold a collection into one item.
-- `above` is `<` on the numbers that are compared; `std::max` keeps its first argument unless the
-- second is greater.
use jcontainers_ng.Common.{
  Bool, true, false, ◌≡◌, refl, List, [], ◌∷◌, if◌then◌else◌, ℤ, ltb_ℤ, Bool-cases, inl, inr, ◌||◌,
  ◌≤ℤ◌, arith, true≢false, sym,
}
use jcontainers_ng.Item.{
  Reals, Item, blank, integer, real, form, object, string, is_null, is_number, flt_value, int_value,
  eq_ℤ,
}

module _ (r : Reals) where
  open r use {Real, real_lt}

  -- `std::max` and `std::min`.
  abbrev pub max_real : Real → Real → Real
  max_real x y = if real_lt x y then y else x

  abbrev pub min_real : Real → Real → Real
  min_real x y = if real_lt y x then y else x

  unfoldable pub max_num : Item Real → Item Real → Item Real
  max_num val state =
      if is_number val
      then (if is_null state then val else real (max_real (flt_value r val) (flt_value r state)))
      else state

  unfoldable pub min_num : Item Real → Item Real → Item Real
  min_num val state =
      if is_number val
      then (if is_null state then val else real (min_real (flt_value r val) (flt_value r state)))
      else state

  unfoldable pub max_flt : Item Real → Item Real → Item Real
  max_flt (real x) state = if is_null state then real x else real (max_real x (flt_value r state))
  max_flt _ state = state

  unfoldable pub min_flt : Item Real → Item Real → Item Real
  min_flt (real x) state = if is_null state then real x else real (min_real x (flt_value r state))
  min_flt _ state = state

  unfoldable pub max_int : Item Real → Item Real → Item Real
  max_int (integer n) state =
      if is_null state
      then integer n
      else integer (if ltb_ℤ n (int_value r state) then int_value r state else n)
  max_int _ state = state

  unfoldable pub min_int : Item Real → Item Real → Item Real
  min_int (integer n) state =
      if is_null state
      then integer n
      else integer (if ltb_ℤ (int_value r state) n then int_value r state else n)
  min_int _ state = state

  -- An operator is applied to the items in turn, the state being null at first.
  unfoldable pub fold_items :
      (Item Real → Item Real → Item Real) → List (Item Real) → Item Real → Item Real
  fold_items func [] state = state
  fold_items func (x ∷ xs) state = fold_items func xs (func x state)

  -- Whether `integer n` stands in the list.
  abbrev pub has_integer : ℤ → List (Item Real) → Bool
  has_integer n [] = false
  has_integer n (integer m ∷ xs) = eq_ℤ n m || has_integer n xs
  has_integer n (x ∷ xs) = has_integer n xs

  -- From an integer state the result is an integer that no item exceeds.
  fold_max_int-above :
      (xs : List (Item Real)) (s : ℤ)
      → (m : ℤ) × (fold_items max_int xs (integer s) ≡ integer m)
        × (s ≤ℤ m)
        × ((n : ℤ) → has_integer n xs ≡ true → n ≤ℤ m)
        × ((eq_ℤ m s || has_integer m xs) ≡ true)
  unfolding fold_items max_int
  fold_max_int-above [] s = (s, refl, omega arith, λ n h. absurd (true≢false (sym h)), ground arith)
  fold_max_int-above (integer k ∷ xs) s = elim (Bool-cases (ltb_ℤ k s)) [
    | inl less ↦
        let (m, e, u, above, mem) = fold_max_int-above xs s in
        (
          m,
          rw less e,
          u,
          λ n h. elim (Bool-cases (eq_ℤ n k)) [
            | inl hit ↦ ground arith
            | inr miss ↦ above n (ground arith)
          ],
          ground arith,
        )
    | inr more ↦
        let (m, e, u, above, mem) = fold_max_int-above xs k in
        (
          m,
          rw more e,
          ground arith,
          λ n h. elim (Bool-cases (eq_ℤ n k)) [
            | inl hit ↦ ground arith
            | inr miss ↦ above n (ground arith)
          ],
          ground arith,
        )
  ]
  fold_max_int-above (blank ∷ xs) s = fold_max_int-above xs s
  fold_max_int-above (real x ∷ xs) s = fold_max_int-above xs s
  fold_max_int-above (form f ∷ xs) s = fold_max_int-above xs s
  fold_max_int-above (object p ∷ xs) s = fold_max_int-above xs s
  fold_max_int-above (string t ∷ xs) s = fold_max_int-above xs s

  -- `maxInt` over items among which the given integer is, from a null state: the result is one of the
  -- integers, and it is not below the given one.
  pub fold_max_int-above_each :
      (xs : List (Item Real)) (k : ℤ)
      → has_integer k xs ≡ true
      → (m : ℤ) × (fold_items max_int xs blank ≡ integer m) × (has_integer m xs ≡ true) × (k ≤ℤ m)
  unfolding fold_items max_int
  fold_max_int-above_each [] k h = absurd (true≢false (sym h))
  fold_max_int-above_each (integer s ∷ xs) k h =
      let (m, e, u, above, mem) = fold_max_int-above xs s in
      (
        m,
        e,
        mem,
        elim (Bool-cases (eq_ℤ k s)) [ inl hit ↦ ground arith | inr miss ↦ above k (ground arith) ],
      )
  fold_max_int-above_each (blank ∷ xs) k h = fold_max_int-above_each xs k h
  fold_max_int-above_each (real x ∷ xs) k h = fold_max_int-above_each xs k h
  fold_max_int-above_each (form f ∷ xs) k h = fold_max_int-above_each xs k h
  fold_max_int-above_each (object p ∷ xs) k h = fold_max_int-above_each xs k h
  fold_max_int-above_each (string t ∷ xs) k h = fold_max_int-above_each xs k h
