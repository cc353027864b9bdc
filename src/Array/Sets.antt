-- ===== src/Array/Sets.antt =====
-- `sort` and `unique`. `std::sort` is taken as a function that keeps the items and puts them in
-- order; `std::unique` is modelled.
use jcontainers_ng.Common.{
  ◌≡◌, refl, ap, sym, ◌∙◌, Bool, true, false, not, ◌&&◌, ◌||◌, Option, none, some, List, [], ◌∷◌,
  arith, if◌then◌else◌, Bool-cases, ltb, inl, inr,
}
use jcontainers_ng.Array.Lists.{count_if}

-- `<` and `==` of the items.
pub record Order {ℓ} (A : Type ℓ) : Type ℓ where
  pub lt : A → A → Bool
  pub eq : A → A → Bool
  pub lt_irrefl : (a : A) → lt a a ≡ false
  -- `<` is a strict weak order.
  pub lt_split : (a b c : A) → lt a c ≡ true → (lt a b || lt b c) ≡ true
  pub lt_asym : (a b : A) → lt a b ≡ true → lt b a ≡ false
  -- `==` is "neither is less".
  pub eq_incomparable : (a b : A) → eq a b ≡ (not (lt a b) && not (lt b a))

-- The items after the kept one: those that equal it go, up to the next that is kept.
unfoldable pub unique_after {ℓ} : {A : Type ℓ} → (A → A → Bool) → A → List A → List A
unique_after eq kept [] = []
unique_after eq kept (x ∷ xs) =
    let here = unique_after eq kept xs in
    let other = x ∷ unique_after eq x xs in if eq kept x then here else other

unfoldable pub std_unique {ℓ} : {A : Type ℓ} → (A → A → Bool) → List A → List A
std_unique eq [] = []
std_unique eq (x ∷ xs) = x ∷ unique_after eq x xs

unfoldable pub sort_items {ℓ} : {A : Type ℓ} → (List A → List A) → Option (List A) → Option (List A)
sort_items sort none = none
sort_items sort (some xs) = some (sort xs)

unfoldable pub unique_items {ℓ} :
    {A : Type ℓ} → (A → A → Bool) → (List A → List A) → Option (List A) → Option (List A)
unique_items eq sort none = none
unique_items eq sort (some xs) = some (std_unique eq (sort xs))

module _ {ℓ} {A : Type ℓ} (o : Order A) where
  open o use {lt, eq, lt_irrefl, lt_split, lt_asym, eq_incomparable}

  -- No item is less than the one before it.
  abbrev pub IsSorted : List A → Type 0
  IsSorted [] = Unit
  IsSorted (x ∷ []) = Unit
  IsSorted (x ∷ y ∷ r) = (lt y x ≡ false) × IsSorted (y ∷ r)

  -- Each item is less than the next.
  abbrev pub IsRising : List A → Type 0
  IsRising [] = Unit
  IsRising (x ∷ []) = Unit
  IsRising (x ∷ y ∷ r) = (lt x y ≡ true) × IsRising (y ∷ r)

  pub contains : List A → A → Bool
  contains [] a = false
  contains (x ∷ xs) a = eq x a || contains xs a

  eq_trans : (a b c : A) → eq a b ≡ true → eq b c ≡ eq a c
  eq_trans a b c h = ground (
    arith,
    eq_incomparable a b,
    eq_incomparable b c,
    eq_incomparable a c,
    lt_split a b c,
    lt_split b a c,
    lt_split c a b,
    lt_split c b a,
  )

  -- An item less than `x` is less than anything that `x` equals.
  sorted_skip : (k x y : A) → eq k x ≡ true → lt y x ≡ false → lt y k ≡ false
  sorted_skip k x y e h = ground (arith, eq_incomparable k x, lt_split y x k)

  IsRising-after : (k : A) (xs : List A) → IsSorted (k ∷ xs) → IsRising (k ∷ unique_after eq k xs)
  unfolding unique_after
  IsRising-after k [] s = tt
  IsRising-after k (x ∷ []) s = elim (Bool-cases (eq k x)) [
    | inl same ↦ rw same tt
    | inr other ↦ rw other (ground (arith, eq_incomparable k x), tt)
  ]
  IsRising-after k (x ∷ y ∷ r) s = elim (Bool-cases (eq k x)) [
    | inl same ↦ rw same (IsRising-after k (y ∷ r) (sorted_skip k x y same s.1.0, s.1.1))
    | inr other ↦ rw other (ground (arith, eq_incomparable k x), IsRising-after x (y ∷ r) s.1)
  ]

  contains-after :
      (k : A) (xs : List A) (a : A) → contains (k ∷ unique_after eq k xs) a ≡ contains (k ∷ xs) a
  unfolding contains unique_after
  contains-after k [] a = refl
  contains-after k (x ∷ xs) a = elim (Bool-cases (eq k x)) [
    | inl same ↦ rw same (ground (arith, contains-after k xs a, eq_trans k x a same))
    | inr other ↦ rw other (ground (arith, contains-after x xs a))
  ]

  -- `std::unique` on a sorted array leaves each item below the next, so no two are equal, and loses
  -- no value.
  pub std_unique-IsRising :
      (xs : List A)
      → IsSorted xs
      → IsRising (std_unique eq xs) × ((a : A) → contains (std_unique eq xs) a ≡ contains xs a)
  unfolding std_unique
  std_unique-IsRising [] s = (tt, λ a. refl)
  std_unique-IsRising (x ∷ xs) s = (IsRising-after x xs s, λ a. contains-after x xs a)

  contains-count : (xs : List A) (a : A) → contains xs a ≡ ltb 0 (count_if (λ x. eq x a) xs)
  unfolding contains count_if
  contains-count [] a = refl
  contains-count (x ∷ xs) a = ground (arith, contains-count xs a)

  -- With an order on the items and a `std::sort` that puts this array in order and keeps its
  -- items: `unique` answers an array that rises strictly and holds the same values.
  pub unique_items-IsRising :
      (sort : List A → List A) (xs : List A)
      → IsSorted (sort xs)
      → ((p : A → Bool) → count_if p (sort xs) ≡ count_if p xs)
      → (ys : List A) × (unique_items eq sort (some xs) ≡ some ys)
        × IsRising ys
        × ((a : A) → contains ys a ≡ contains xs a)
  unfolding unique_items
  unique_items-IsRising sort xs s c =
      let (r, k) = std_unique-IsRising (sort xs) s in
      (
        std_unique eq (sort xs),
        refl,
        r,
        λ a.
            k a
            ∙ contains-count (sort xs) a
            ∙ ap (ltb 0) (c (λ x. eq x a))
            ∙ sym (contains-count xs a),
      )
