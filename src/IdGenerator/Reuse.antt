-- ===== src/IdGenerator/Reuse.antt =====
-- `reuse_id` of object/id_generator.h, on the ranges, beside a recursive insertion.
use jcontainers_ng.Common.{
  ℕ, zero, suc, ◌+◌, ◌<◌, ◌≡◌, refl, false, ◌||◌, List, [], ◌∷◌, ltb, ◌==◌, if◌then◌else◌, ◌⊎◌,
  Bool-cases, inl, inr, arith,
}
use jcontainers_ng.IdGenerator.{
  Range, IdGenerator, reuse_id, reuse_at, lower_bound, id_mod, next_id,
}
use jcontainers_ng.IdGenerator.Covers.{covers, IsSpaced}

-- The insertion that the four branches make, by recursion from the left.
add_id : ℕ → List Range → List Range
add_id v [] = record { first = v; last = v } ∷ []
add_id v (r ∷ []) =
    if ltb v r.first
    then (if v + 1 == r.first
        then record r { first = v } ∷ []
        else record { first = v; last = v } ∷ r ∷ [])
    else (if r.last + 1 == v
        then record r { last = v } ∷ []
        else r ∷ record { first = v; last = v } ∷ [])
add_id v (r ∷ s ∷ rs) =
    let rest = add_id v (s ∷ rs) in
    if ltb v r.first
    then (if v + 1 == r.first
        then record r { first = v } ∷ s ∷ rs
        else record { first = v; last = v } ∷ r ∷ s ∷ rs)
    else (if r.last + 1 == v
        then (if v + 1 == s.first
            then record r { last = s.last } ∷ rs
            else record r { last = v } ∷ s ∷ rs)
        else r ∷ rest)

abbrev ranges_at : List Range → ℕ → ℕ → List Range
ranges_at rs v i = (reuse_at (record { empty_ranges = rs; current_range = 0 }) v i).empty_ranges

-- The iterator plays no part in what becomes of the ranges.
ranges_at_lem :
    (g : IdGenerator) (v i : ℕ) → (reuse_at g v i).empty_ranges ≡ ranges_at g.empty_ranges v i
ranges_at_lem g v i = ground arith

-- A range that neither follows `v` nor touches it from the left stays in front.
ranges_at-cons :
    (r : Range) (rs : List Range) (v i : ℕ)
    → (next_id r.last == v) ≡ false
    → ranges_at (r ∷ rs) v (suc i) ≡ r ∷ ranges_at rs v i
ranges_at-cons r rs v zero h = ground arith
ranges_at-cons r rs v (suc i) h = ground arith

-- One step of the insertion, on the set that the ranges stand for.
covers-add_step :
    (lo v w : ℕ) (r s : Range) (rs : List Range)
    → IsSpaced lo (r ∷ s ∷ rs)
    → covers (add_id v (s ∷ rs)) w ≡ (covers (s ∷ rs) w || (w == v))
    → covers (add_id v (r ∷ s ∷ rs)) w ≡ (covers (r ∷ s ∷ rs) w || (w == v))
unfolding add_id covers
covers-add_step lo v w r s rs sp ih = elim (Bool-cases (ltb v r.first)) [
  | inl under ↦ ground arith
  | inr over ↦ elim (Bool-cases (r.last + 1 == v)) [
    | inl touch ↦ ground arith
    | inr apart ↦ ground arith
  ]
]

covers-add_one :
    (lo v w : ℕ) (r : Range)
    → IsSpaced lo (r ∷ [])
    → covers (add_id v (r ∷ [])) w ≡ (covers (r ∷ []) w || (w == v))
unfolding add_id covers
covers-add_one lo v w r s = ground arith

covers-add_nil : (v w : ℕ) → covers (add_id v []) w ≡ (covers [] w || (w == v))
unfolding add_id covers
covers-add_nil v w = ground arith

covers-add_id :
    (lo v w : ℕ) (rs : List Range)
    → IsSpaced lo rs
    → covers (add_id v rs) w ≡ (covers rs w || (w == v))
covers-add_id lo v w [] s = covers-add_nil v w
covers-add_id lo v w (r ∷ []) s = covers-add_one lo v w r s
covers-add_id lo v w (r ∷ s ∷ rs) sp =
    covers-add_step lo v w r s rs sp (covers-add_id (r.last + 1) v w (s ∷ rs) sp.3)

reuse-eq-add_touch :
    (lo v : ℕ) (r s : Range) (rs : List Range)
    → IsSpaced lo (r ∷ s ∷ rs)
    → v + 1 < id_mod
    → (r.last + 1 ≡ v) ⊎ (v < r.first)
    → ranges_at (r ∷ s ∷ rs) v (lower_bound (r ∷ s ∷ rs) v) ≡ add_id v (r ∷ s ∷ rs)
unfolding lower_bound add_id
reuse-eq-add_touch lo v r s rs sp q (inl e) = ground arith
reuse-eq-add_touch lo v r s rs sp q (inr e) = ground arith

reuse-eq-add_apart :
    (lo v : ℕ) (r s : Range) (rs : List Range)
    → IsSpaced lo (r ∷ s ∷ rs)
    → r.last + 1 < v
    → ranges_at (s ∷ rs) v (lower_bound (s ∷ rs) v) ≡ add_id v (s ∷ rs)
    → ranges_at (r ∷ s ∷ rs) v (suc (lower_bound (s ∷ rs) v)) ≡ add_id v (r ∷ s ∷ rs)
unfolding add_id
reuse-eq-add_apart lo v r s rs sp q ih =
    rw (ranges_at-cons r (s ∷ rs) v _ (ground arith)) (rw ih (ground arith))

lower_bound-cons :
    (r : Range) (rs : List Range) (v : ℕ)
    → r.first < v
    → lower_bound (r ∷ rs) v ≡ suc (lower_bound rs v)
unfolding lower_bound
lower_bound-cons r rs v h = ground arith

reuse-eq-add_one :
    (lo v : ℕ) (r : Range)
    → IsSpaced lo (r ∷ [])
    → v + 1 < id_mod
    → covers (r ∷ []) v ≡ false
    → ranges_at (r ∷ []) v (lower_bound (r ∷ []) v) ≡ add_id v (r ∷ [])
unfolding lower_bound add_id covers
reuse-eq-add_one lo v r s q c = ground arith

-- A free range splits the identifiers: `v` is before it, right behind it, or further on.
data Side (v : ℕ) (r : Range) (rs : List Range) : Type 0 where
  near : (r.last + 1 ≡ v) ⊎ (v < r.first) → Side v r rs
  far : r.last + 1 < v → r.first < v → covers rs v ≡ false → Side v r rs

side :
    (lo v : ℕ) (r : Range) (rs : List Range)
    → IsSpaced lo (r ∷ rs)
    → covers (r ∷ rs) v ≡ false
    → Side v r rs
unfolding covers
side lo v r rs s c = elim (Bool-cases (ltb v r.first)) [
  | inl under ↦ near (inr (ground arith))
  | inr over ↦ elim (Bool-cases (r.last + 1 == v)) [
    | inl touch ↦ near (inl (ground arith))
    | inr apart ↦ far (ground arith) (ground arith) (ground arith)
  ]
]

reuse-eq-add_id :
    (lo v : ℕ) (rs : List Range)
    → IsSpaced lo rs
    → v + 1 < id_mod
    → covers rs v ≡ false
    → ranges_at rs v (lower_bound rs v) ≡ add_id v rs
unfolding lower_bound add_id
reuse-eq-add_id lo v [] s q c = refl
reuse-eq-add_id lo v (r ∷ []) s q c = reuse-eq-add_one lo v r s q c
reuse-eq-add_id lo v (r ∷ s ∷ rs) sp q c = elim (side lo v r (s ∷ rs) sp c) [
  | near h ↦ reuse-eq-add_touch lo v r s rs sp q h
  | far h k c' ↦
      rw (lower_bound-cons r (s ∷ rs) v k)
        (reuse-eq-add_apart lo v r s rs sp h (reuse-eq-add_id (r.last + 1) v (s ∷ rs) sp.3 q c'))
]

IsSpaced-add_near :
    (lo v : ℕ) (r s : Range) (rs : List Range)
    → IsSpaced lo (r ∷ s ∷ rs)
    → lo < v
    → v + 1 < id_mod
    → (r.last + 1 ≡ v) ⊎ (v < r.first)
    → IsSpaced lo (add_id v (r ∷ s ∷ rs))
unfolding add_id
IsSpaced-add_near lo v r s rs sp p q (inl e) = ground arith
IsSpaced-add_near lo v r s rs sp p q (inr e) = ground arith

IsSpaced-add_far :
    (lo v : ℕ) (r s : Range) (rs : List Range)
    → IsSpaced lo (r ∷ s ∷ rs)
    → r.last + 1 < v
    → IsSpaced (r.last + 1) (add_id v (s ∷ rs))
    → IsSpaced lo (add_id v (r ∷ s ∷ rs))
unfolding add_id
IsSpaced-add_far lo v r s rs sp p ih = ground arith

IsSpaced-add_one :
    (lo v : ℕ) (r : Range)
    → IsSpaced lo (r ∷ [])
    → lo < v
    → v + 1 < id_mod
    → covers (r ∷ []) v ≡ false
    → IsSpaced lo (add_id v (r ∷ []))
unfolding add_id covers
IsSpaced-add_one lo v r s p q c = ground arith

IsSpaced-add_id :
    (lo v : ℕ) (rs : List Range)
    → IsSpaced lo rs
    → lo < v
    → v + 1 < id_mod
    → covers rs v ≡ false
    → IsSpaced lo (add_id v rs)
unfolding add_id
IsSpaced-add_id lo v [] s p q c = omega arith
IsSpaced-add_id lo v (r ∷ []) s p q c = IsSpaced-add_one lo v r s p q c
IsSpaced-add_id lo v (r ∷ s ∷ rs) sp p q c = elim (side lo v r (s ∷ rs) sp c) [
  | near h ↦ IsSpaced-add_near lo v r s rs sp p q h
  | far h k c' ↦
      IsSpaced-add_far lo v r s rs sp h (IsSpaced-add_id (r.last + 1) v (s ∷ rs) sp.3 h q c')
]

-- On ranges in order, giving back an identifier that is not free makes it free and changes no
-- other.
pub reuse_id-covers :
    (g : IdGenerator) (v w : ℕ)
    → IsSpaced 0 g.empty_ranges
    → v + 1 < id_mod
    → covers g.empty_ranges v ≡ false
    → covers (reuse_id g v).empty_ranges w ≡ (covers g.empty_ranges w || (w == v))
unfolding reuse_id
reuse_id-covers g v w s q c =
    let rs = g.empty_ranges in
    rw (ranges_at_lem g v (lower_bound rs v))
      (rw (reuse-eq-add_id 0 v rs s q c) (covers-add_id 0 v w rs s))

-- On ranges in order, giving back a positive identifier that is not free keeps the ranges in
-- order, none empty and none touching the next.
pub reuse_id-IsSpaced :
    (g : IdGenerator) (v : ℕ)
    → IsSpaced 0 g.empty_ranges
    → 0 < v
    → v + 1 < id_mod
    → covers g.empty_ranges v ≡ false
    → IsSpaced 0 (reuse_id g v).empty_ranges
unfolding reuse_id
reuse_id-IsSpaced g v s p q c =
    let rs = g.empty_ranges in
    rw (ranges_at_lem g v (lower_bound rs v))
      (rw (reuse-eq-add_id 0 v rs s q c) (IsSpaced-add_id 0 v rs s p q c))
