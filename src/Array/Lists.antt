-- ===== src/Array/Lists.antt =====
-- The standard algorithms on vectors that the array functions call.
use jcontainers_ng.Common.{
  ℕ, zero, suc, ◌+◌, Bool, Option, none, some, List, [], ◌∷◌, ◌++◌, if◌then◌else◌,
}

abbrev pub shift : Option ℕ → Option ℕ
shift none = none
shift (some k) = some (suc k)

module _ {ℓ} {A : Type ℓ} where
  abbrev pub insert_all : List A → ℕ → List A → List A
  insert_all xs zero ys = ys ++ xs
  insert_all [] (suc i) ys = ys
  insert_all (x ∷ xs) (suc i) ys = x ∷ insert_all xs i ys

  abbrev pub erase_at : List A → ℕ → List A
  erase_at [] i = []
  erase_at (x ∷ xs) zero = xs
  erase_at (x ∷ xs) (suc i) = x ∷ erase_at xs i

  -- A loop of single insertions, all at the same offset.
  unfoldable pub insert_each : List A → ℕ → List A → List A
  insert_each xs i [] = xs
  insert_each xs i (y ∷ ys) = insert_each (insert_all xs i (y ∷ [])) i ys

  -- `std::count_if` and `std::remove_if`.
  unfoldable pub count_if : (A → Bool) → List A → ℕ
  count_if p [] = 0
  count_if p (x ∷ xs) = (if p x then 1 else 0) + count_if p xs

  unfoldable pub remove_if : (A → Bool) → List A → List A
  remove_if p [] = []
  remove_if p (x ∷ xs) = let rest = remove_if p xs in if p x then rest else x ∷ rest

  module _ (eq : A → A → Bool) (value : A) where
    -- The first offset from `start` on whose item equals the value: `std::find`.
    unfoldable pub find_from : ℕ → List A → Option ℕ
    find_from start [] = none
    find_from zero (x ∷ xs) = if eq x value then some 0 else shift (find_from 0 xs)
    find_from (suc start) (x ∷ xs) = shift (find_from start xs)

    -- The last offset below `stop` whose item equals the value: `std::find` over reverse iterators.
    unfoldable pub find_last : ℕ → List A → Option ℕ
    find_last zero xs = none
    find_last (suc stop) [] = none
    find_last (suc stop) (x ∷ xs) = elim (find_last stop xs) [
      | some k ↦ some (suc k)
      | none ↦ if eq x value then some 0 else none
    ]
