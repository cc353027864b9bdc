-- ===== src/IdGenerator/Search.antt =====
-- The queries of object/id_generator.h: `is_free_id` and `is_valid`.
use jcontainers_ng.Common.{
  ℕ, zero, suc, ◌+◌, ◌<◌, ◌≡◌, refl, Bool, false, true, ◌&&◌, List, [], ◌∷◌, none, some, leb, ltb,
  arith, length, Bool-cases, inl, inr,
}
use jcontainers_ng.IdGenerator.{
  Range, IdGenerator, is_free_id, upper_bound, before, range_end, is_valid, no_overlap,
}
use jcontainers_ng.IdGenerator.Covers.{covers, IsSpaced, covers-above}

-- The test of `is_free_id` on the range before an offset.
abbrev free_at : List Range → ℕ → ℕ → Bool
free_at rs v i = elim (before rs i) [ none ↦ false | some r ↦ leb r.first v && ltb v (range_end r) ]

free_at-cons :
    (r : Range) (rs : List Range) (v i : ℕ) → 0 < i → free_at (r ∷ rs) v (suc i) ≡ free_at rs v i
free_at-cons r rs v zero h = absurd (omega arith)
free_at-cons r rs v (suc i) h = refl

-- Nothing further on can hold `v` when the first range already starts after it.
free_at-last :
    (lo v : ℕ) (r : Range) (rs : List Range)
    → IsSpaced lo (r ∷ rs)
    → upper_bound rs v ≡ 0
    → covers rs v ≡ false
    → free_at (r ∷ rs) v (upper_bound (r ∷ rs) v) ≡ covers (r ∷ rs) v
unfolding upper_bound covers
free_at-last lo v r rs s e c = ground arith

covers-upper_zero :
    (lo v : ℕ) (rs : List Range) → IsSpaced lo rs → upper_bound rs v ≡ 0 → covers rs v ≡ false
unfolding upper_bound covers
covers-upper_zero lo v [] s e = refl
covers-upper_zero lo v (r ∷ rs) s e = ground (arith, covers-above (r.last + 1) v rs s.3)

upper_bound-pos :
    (lo v : ℕ) (r : Range) (rs : List Range)
    → IsSpaced lo (r ∷ rs)
    → 0 < upper_bound rs v
    → (r.last < v) × (upper_bound (r ∷ rs) v ≡ suc (upper_bound rs v))
unfolding upper_bound
upper_bound-pos lo v r [] s h = absurd (omega arith)
upper_bound-pos lo v r (x ∷ rs) s h = ground arith

free_at-covers :
    (lo v : ℕ) (rs : List Range) → IsSpaced lo rs → free_at rs v (upper_bound rs v) ≡ covers rs v
unfolding upper_bound covers
free_at-covers lo v [] s = refl
free_at-covers lo v (r ∷ rs) s = elim (Bool-cases (ltb 0 (upper_bound rs v))) [
  | inl more ↦
      let (p, e) = upper_bound-pos lo v r rs s (ground arith) in
      let ih = free_at-covers (r.last + 1) v rs s.3 in
      rw e (rw (free_at-cons r rs v (upper_bound rs v) (ground arith)) (rw ih (ground arith)))
  | inr stop ↦
      let z : upper_bound rs v ≡ 0 = ground arith in
      free_at-last lo v r rs s z (covers-upper_zero (r.last + 1) v rs s.3 z)
]

-- On ranges in order, `is_free_id` answers exactly whether some range holds the identifier.
pub is_free_id-eq-covers :
    (g : IdGenerator) (v : ℕ) → IsSpaced 0 g.empty_ranges → is_free_id g v ≡ covers g.empty_ranges v
unfolding is_free_id
is_free_id-eq-covers g v s = free_at-covers 0 v g.empty_ranges s

no_overlap-IsSpaced : (lo : ℕ) (rs : List Range) → IsSpaced lo rs → no_overlap rs ≡ true
unfolding no_overlap
no_overlap-IsSpaced lo [] s = refl
no_overlap-IsSpaced lo (r ∷ []) s = refl
no_overlap-IsSpaced lo (r ∷ x ∷ rs) s =
    ground (arith, no_overlap-IsSpaced (r.last + 1) (x ∷ rs) s.3)

is_valid-list :
    (rs : List Range) (i : ℕ)
    → IsSpaced 0 rs
    → i < length rs
    → is_valid (record { empty_ranges = rs; current_range = i }) ≡ true
unfolding is_valid
is_valid-list [] i s h = absurd (omega arith)
is_valid-list (r ∷ rs) i s h = ground (arith, no_overlap-IsSpaced 0 (r ∷ rs) s)

-- The class's own check passes on ranges in order with the iterator inside the deque.
pub is_valid-IsSpaced :
    (g : IdGenerator)
    → IsSpaced 0 g.empty_ranges
    → g.current_range < length g.empty_ranges
    → is_valid g ≡ true
is_valid-IsSpaced g s h = is_valid-list g.empty_ranges g.current_range s h
