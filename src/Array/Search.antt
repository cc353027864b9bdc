-- ===== src/Array/Search.antt =====
-- `findVal`, `countItem` and `eraseItem` against what their scripts expect.
use jcontainers_ng.Common.{
  ℕ, zero, suc, ◌+◌, ◌-◌, ◌≤◌, ◌<◌, ◌≡◌, refl, ◌∙◌, Bool, true, false, Option, none, some, List, [],
  ◌∷◌, arith, length, get_elem?, ℤ, pos, negsuc, inl, inr, ◌⊎◌, Option-cases, Bool-cases, le→leb,
}
use mathlib.Core.Path.{subst}
use jcontainers_ng.Index.{done, sint32_end}
use jcontainers_ng.Array.{find_val, count_item, erase_item, search_from}
use jcontainers_ng.Array.Lists.{find_from, find_last, count_if, remove_if, shift}
use jcontainers_ng.Array.Elements.{front, back, do_read_op-Names}

module _ {ℓ} {A : Type ℓ} (eq : A → A → Bool) (value : A) where
  -- The item at an offset is there and equals the value.
  abbrev pub Hit : List A → ℕ → Type ℓ
  Hit xs k = (a : A) × (get_elem? xs k ≡ some a) × (eq a value ≡ true)

  -- No item at offsets from `lo` to below `hi` equals the value.
  abbrev pub Misses : List A → ℕ → ℕ → Type ℓ
  Misses xs lo hi = (k : ℕ) (a : A) → lo ≤ k → k < hi → get_elem? xs k ≡ some a → eq a value ≡ false

  abbrev First : List A → ℕ → Option ℕ → Type ℓ
  First xs start none = Misses xs start (length xs)
  First xs start (some k) = (start ≤ k) × (k < length xs) × Hit xs k × Misses xs start k

  abbrev Last : List A → ℕ → Option ℕ → Type ℓ
  Last xs stop none = Misses xs 0 stop
  Last xs stop (some k) = (k < stop) × Hit xs k × Misses xs (suc k) stop

  Misses-cons :
      (x : A) (xs : List A) (lo hi : ℕ) → Misses xs lo hi → Misses (x ∷ xs) (suc lo) (suc hi)
  Misses-cons x xs lo hi m zero a p q e = absurd (omega arith)
  Misses-cons x xs lo hi m (suc k) a p q e = m k a (omega arith) (omega arith) e

  Misses-head :
      (x : A) (xs : List A) (hi : ℕ)
      → eq x value ≡ false
      → Misses xs 0 hi
      → Misses (x ∷ xs) 0 (suc hi)
  Misses-head x xs hi n m zero a p q e = cc
  Misses-head x xs hi n m (suc k) a p q e = m k a (omega arith) (omega arith) e

  First-cons :
      (x : A) (xs : List A) (start : ℕ) (r : Option ℕ)
      → First xs start r
      → First (x ∷ xs) (suc start) (shift r)
  First-cons x xs start none m = Misses-cons x xs start (length xs) m
  First-cons x xs start (some k) (p, q, h, m) =
      (omega arith, omega arith, h, Misses-cons x xs start k m)

  First-head :
      (x : A) (xs : List A) (r : Option ℕ)
      → eq x value ≡ false
      → First xs 0 r
      → First (x ∷ xs) 0 (shift r)
  First-head x xs none n m = Misses-head x xs (length xs) n m
  First-head x xs (some k) n (p, q, h, m) = (omega arith, omega arith, h, Misses-head x xs k n m)

  find_from-First : (start : ℕ) (xs : List A) → First xs start (find_from eq value start xs)
  unfolding find_from
  find_from-First start [] = λ k a p q e. absurd (omega arith)
  find_from-First zero (x ∷ xs) = elim (Bool-cases (eq x value)) [
    | inl yes' ↦
        rw yes' (omega arith, omega arith, (x, refl, yes'), λ k a p q e. absurd (omega arith))
    | inr no' ↦ rw no' (First-head x xs _ no' (find_from-First 0 xs))
  ]
  find_from-First (suc start) (x ∷ xs) = First-cons x xs start _ (find_from-First start xs)

  Last-cons :
      (x : A) (xs : List A) (stop k : ℕ)
      → Last xs stop (some k)
      → Last (x ∷ xs) (suc stop) (some (suc k))
  Last-cons x xs stop k (p, h, m) = (omega arith, h, Misses-cons x xs (suc k) stop m)

  find_last-Last : (stop : ℕ) (xs : List A) → Last xs stop (find_last eq value stop xs)
  unfolding find_last
  find_last-Last zero xs = λ k a p q e. absurd (omega arith)
  find_last-Last (suc stop) [] = λ k a p q e. cc
  find_last-Last (suc stop) (x ∷ xs) = elim (Option-cases (find_last eq value stop xs)) [
    | inr (k, e) ↦
        rw (e, find_last) (Last-cons x xs stop k (subst (Last xs stop) e (find_last-Last stop xs)))
    | inl e ↦
        let m = subst (Last xs stop) e (find_last-Last stop xs) in
        elim (Bool-cases (eq x value)) [
          | inl yes' ↦
              rw (e, find_last) (rw yes' (omega arith, (x, refl, yes'), Misses-cons x xs 0 stop m))
          | inr no' ↦ rw (e, find_last) (rw no' (Misses-head x xs stop no' m))
        ]
  ]

  -- What a forward search answers: -1, or the offset of a hit.
  abbrev pub Forward : List A → ℕ → ℤ → Type ℓ
  Forward xs start z =
      ((z ≡ negsuc 0) × Misses xs start (length xs))
      ⊎ ((k : ℕ) × (z ≡ pos k) × (start ≤ k) × (k < length xs) × Hit xs k × Misses xs start k)

  -- What a backward search answers: -1, or one more than the offset of a hit.
  abbrev pub Backward : List A → ℕ → ℤ → Type ℓ
  Backward xs stop z =
      ((z ≡ negsuc 0) × Misses xs 0 stop)
      ⊎ ((k : ℕ) × (z ≡ pos (k + 1)) × (k < stop) × Hit xs k × Misses xs (suc k) stop)

  search_from-pos :
      (xs : List A) (n i : ℕ) (r : Option ℕ)
      → find_from eq value i xs ≡ r
      → First xs i r
      → (z : ℤ) × (search_from eq value (pos n) xs i ≡ done z) × Forward xs i z
  search_from-pos xs n i none e f = (negsuc 0, rw (e, search_from), inl (refl, f))
  search_from-pos xs n i (some k) e f =
      (pos k, rw (e, search_from), inr (k, refl, f.0, f.1, f.2, f.3))

  search_from-negsuc :
      (xs : List A) (n i : ℕ) (r : Option ℕ)
      → find_last eq value (length xs - n) xs ≡ r
      → Last xs (length xs - n) r
      → (z : ℤ) × (search_from eq value (negsuc n) xs i ≡ done z) × Backward xs (length xs - n) z
  search_from-negsuc xs n i none e f = (negsuc 0, rw (e, search_from), inl (refl, f))
  search_from-negsuc xs n i (some k) e f =
      (pos (k + 1), rw (e, search_from), inr (k, refl, f.0, f.1, f.2))

  -- Searching an array below 2 ^ 31 items forwards from an index in range answers the offset of the
  -- first hit from there on, or -1 when there is none.
  pub find_val-Forward :
      (xs : List A) (n : ℕ)
      → length xs < sint32_end
      → n < length xs
      → (z : ℤ) × (find_val eq (some xs) value (pos n) ≡ done z) × Forward xs n z
  unfolding find_val
  find_val-Forward xs n w h =
      let (z, e, f) = search_from-pos xs n n _ refl (find_from-First n xs) in
      (
        z,
        do_read_op-Names xs (pos n) n _ _ w (front n h) ∙ rw (le→leb n (length xs) (omega arith)) e,
        f,
      )

  -- Searching an array below 2 ^ 31 items from an index in range that counts from the end goes
  -- backwards: -1 when no item from there to the front equals the value, and else one more than the
  -- offset of the nearest hit.
  pub find_val-Backward :
      (xs : List A) (n : ℕ)
      → length xs < sint32_end
      → n < length xs
      → (z : ℤ) × (find_val eq (some xs) value (negsuc n) ≡ done z) × Backward xs (length xs - n) z
  unfolding find_val
  find_val-Backward xs n w h =
      let i = length xs - suc n in
      let (z, e, f) = search_from-negsuc xs n i _ refl (find_last-Last (length xs - n) xs) in
      (
        z,
        do_read_op-Names xs (negsuc n) i _ _ w (back n h)
            ∙ rw (le→leb i (length xs) (omega arith)) e,
        f,
      )

-- Counting and erasing a value.
module _ {ℓ} {A : Type ℓ} (eq : A → A → Bool) (value : A) where
  remove_if-length :
      (xs : List A)
      → length (remove_if (λ x. eq x value) xs) + count_if (λ x. eq x value) xs ≡ length xs
  unfolding remove_if count_if
  remove_if-length [] = omega arith
  remove_if-length (x ∷ xs) = ground (arith, remove_if-length xs)

  count-remove_if : (xs : List A) → count_if (λ x. eq x value) (remove_if (λ x. eq x value) xs) ≡ 0
  unfolding remove_if count_if
  count-remove_if [] = refl
  count-remove_if (x ∷ xs) = elim (Bool-cases (eq x value)) [
    | inl hit ↦ rw hit (count-remove_if xs)
    | inr miss ↦ rw miss (rw miss (omega (arith, count-remove_if xs)))
  ]

  -- Another value that no erased item equals is counted as before.
  count_if-kept :
      (other : A) (xs : List A)
      → ((x : A) → eq x value ≡ true → eq x other ≡ false)
      → count_if (λ x. eq x other) (remove_if (λ x. eq x value) xs) ≡ count_if (λ x. eq x other) xs
  unfolding remove_if count_if
  count_if-kept other [] d = refl
  count_if-kept other (x ∷ xs) d = elim (Bool-cases (eq x value)) [
    | inl hit ↦ rw (hit, d x hit) (rw (count_if-kept other xs d) (omega arith))
    | inr miss ↦ rw miss (omega (arith, count_if-kept other xs d))
  ]

  -- Erasing a value answers how often it was counted, leaves none of it, and shortens the array by
  -- that much.
  pub erase_item-count :
      (xs : List A)
      → (ys : List A) × ((erase_item eq (some xs) value).0 ≡ some ys)
        × ((erase_item eq (some xs) value).1 ≡ count_item eq (some xs) value)
        × (count_item eq (some ys) value ≡ 0)
        × (length ys + count_item eq (some xs) value ≡ length xs)
  unfolding erase_item count_item
  erase_item-count xs = (
    remove_if (λ x. eq x value) xs,
    refl,
    omega (arith, remove_if-length xs),
    count-remove_if xs,
    remove_if-length xs,
  )

  -- Erasing a value keeps the count of every value that no erased item equals.
  pub erase_item-other :
      (xs : List A) (other : A)
      → ((x : A) → eq x value ≡ true → eq x other ≡ false)
      → (ys : List A) × ((erase_item eq (some xs) value).0 ≡ some ys)
        × (count_item eq (some ys) other ≡ count_item eq (some xs) other)
  unfolding erase_item count_item
  erase_item-other xs other d = (remove_if (λ x. eq x value) xs, refl, count_if-kept other xs d)
