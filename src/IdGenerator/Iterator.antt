-- ===== src/IdGenerator/Iterator.antt =====
-- `_current_range` of object/id_generator.h across `reuse_id`.
use jcontainers_ng.Common.{
  ℕ, zero, suc, ◌+◌, ◌≤◌, ◌<◌, ◌≡◌, refl, ap, true, List, [], ◌∷◌, Option, none, some, arith,
  length, get_elem?, length-set, Option-cases, inl, inr,
}
use jcontainers_ng.IdGenerator.{
  Range, IdGenerator, new_id, is_free_id, upper_bound, reuse_id, reuse_branch, lower_bound, before,
  touching_left, touching_right, set_before, erase_at, insert_at, id_mod,
}

lower_bound-le : (rs : List Range) (v : ℕ) → lower_bound rs v ≤ length rs
unfolding lower_bound
lower_bound-le [] v = omega arith
lower_bound-le (r ∷ rs) v = ground (arith, lower_bound-le rs v)

length-insert_at :
    (rs : List Range) (i : ℕ) (r : Range) → length (insert_at rs i r) ≡ suc (length rs)
length-insert_at rs zero r = refl
length-insert_at [] (suc i) r = refl
length-insert_at (x ∷ rs) (suc i) r = omega (arith, length-insert_at rs i r)

length-set_before : (rs : List Range) (i : ℕ) (r : Range) → length (set_before rs i r) ≡ length rs
length-set_before rs zero r = refl
length-set_before rs (suc i) r = length-set rs i r

length-erase_at : (rs : List Range) (i : ℕ) → i < length rs → length (erase_at rs i) + 1 ≡ length rs
length-erase_at [] i h = absurd (omega arith)
length-erase_at (x ∷ rs) zero h = omega arith
length-erase_at (x ∷ rs) (suc i) h = omega (arith, length-erase_at rs i (omega arith))

lt-length : (rs : List Range) (i : ℕ) (r : Range) → get_elem? rs i ≡ some r → i < length rs
lt-length [] i r e = cc
lt-length (x ∷ rs) zero r e = omega arith
lt-length (x ∷ rs) (suc i) r e = omega (arith, lt-length rs i r e)

branch-current :
    (g : IdGenerator) (v i : ℕ) (l r : Option Range)
    → g.current_range < length g.empty_ranges
    → ((s : Range) → l ≡ some s → 0 < i)
    → ((s : Range) → r ≡ some s → i < length g.empty_ranges)
    → (reuse_branch g v i l r).current_range < length (reuse_branch g v i l r).empty_ranges
branch-current g v i none none h p q =
    ground (arith, length-insert_at g.empty_ranges i (record { first = v; last = v }))
branch-current g v i none (some r) h p q = omega (arith, length-set g.empty_ranges i)
branch-current g v i (some l) none h p q = omega (arith, length-set_before g.empty_ranges i)
branch-current g v i (some l) (some r) h p q =
    let i_pos = p l refl in
    let i_lt = q r refl in
    let m = record l { last = r.last } in
    ground (
      arith,
      length-set_before g.empty_ranges i m,
      length-erase_at (set_before g.empty_ranges i m) i,
    )

touching_left-pos :
    (rs : List Range) (i v : ℕ) (s : Range) → touching_left (before rs i) v ≡ some s → 0 < i
touching_left-pos rs zero v s e = cc
touching_left-pos rs (suc i) v s e = omega arith

touching_right-lt :
    (rs : List Range) (i v : ℕ) (s : Range)
    → touching_right (get_elem? rs i) v ≡ some s
    → i < length rs
touching_right-lt rs i v s e = elim (Option-cases (get_elem? rs i)) [
  | inl n ↦ cc (ap (λ o. touching_right o v) n)
  | inr (r, m) ↦ lt-length rs i r m
]

-- While some identifier is free, `reuse_id` leaves the iterator inside the deque.
pub reuse_id-current :
    (g : IdGenerator) (v : ℕ)
    → g.current_range < length g.empty_ranges
    → (reuse_id g v).current_range < length (reuse_id g v).empty_ranges
unfolding reuse_id
reuse_id-current g v h =
    let i = lower_bound g.empty_ranges v in
    branch-current g v i _ _ h (touching_left-pos g.empty_ranges i v)
      (touching_right-lt g.empty_ranges i v)

-- The state after the last free identifier was taken.
abbrev pub exhausted : IdGenerator
exhausted = record { empty_ranges = []; current_range = 0 }

-- Once the last free identifier was taken, an identifier that is given back is free, and yet no
-- call succeeds: the iterator stays at the end of the deque.
pub reuse_id-exhausted :
    (v w : ℕ)
    → v + 1 < id_mod
    → w + 1 < id_mod
    → (new_id (record { empty_ranges = record { first = v; last = v } ∷ []; current_range = 0 })
        ≡ some (v, exhausted))
      × (is_free_id (reuse_id exhausted w) w ≡ true)
      × (new_id (reuse_id exhausted w) ≡ none)
unfolding new_id reuse_id lower_bound is_free_id upper_bound
reuse_id-exhausted v w h k = (ground arith, ground arith, refl)
