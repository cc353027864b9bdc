-- ===== src/IdGenerator/Take.antt =====
-- `new_id` of object/id_generator.h, on the ranges.
use jcontainers_ng.Common.{
  ℕ, zero, suc, ◌+◌, ◌≤◌, ◌<◌, ◌≡◌, sym, ◌∙◌, true, not, ◌&&◌, List, [], ◌∷◌, none, some, ◌==◌,
  Bool-cases, inl, inr, arith, length, get_elem?, set, ◌⊎◌, length-set, Option-cases, some_pair-eq,
  get_elem?-ne-none,
}
use mathlib.Core.Path.{subst, subst₂}
use jcontainers_ng.IdGenerator.{
  Range, IdGenerator, range_empty, new_id, after_take, erase_at, id_mod, next_id,
}
use jcontainers_ng.IdGenerator.Covers.{covers, IsSpaced, IsSpaced-mono, covers-above}

abbrev taken : Range → Range
taken r = record r { first = next_id r.first }

covers-get :
    (lo : ℕ) (rs : List Range) (i : ℕ) (r : Range)
    → IsSpaced lo rs
    → get_elem? rs i ≡ some r
    → (covers rs r.first ≡ true) × (lo < r.first) × (r.first ≤ r.last) × (r.last + 1 < id_mod)
unfolding covers
covers-get lo [] i r s e = cc
covers-get lo (x ∷ rs) zero r s e = ground arith
covers-get lo (x ∷ rs) (suc i) r s e = ground (arith, covers-get (x.last + 1) rs i r s.3 e)

covers-set :
    (lo : ℕ) (rs : List Range) (i : ℕ) (r : Range) (w : ℕ)
    → IsSpaced lo rs
    → get_elem? rs i ≡ some r
    → r.first < r.last
    → covers (set rs i (taken r)) w ≡ (covers rs w && not (w == r.first))
unfolding covers
covers-set lo [] i r w s e h = cc
covers-set lo (x ∷ rs) zero r w s e h = ground (arith, covers-above (x.last + 1) r.first rs s.3)
covers-set lo (x ∷ rs) (suc i) r w s e h =
    ground (arith, covers-set (x.last + 1) rs i r w s.3 e h, covers-get (x.last + 1) rs i r s.3 e)

covers-erase :
    (lo : ℕ) (rs : List Range) (i : ℕ) (r : Range) (w : ℕ)
    → IsSpaced lo rs
    → get_elem? rs i ≡ some r
    → r.first ≡ r.last
    → covers (erase_at rs i) w ≡ (covers rs w && not (w == r.first))
unfolding covers
covers-erase lo [] i r w s e h = cc
covers-erase lo (x ∷ rs) zero r w s e h = ground (arith, covers-above (x.last + 1) r.first rs s.3)
covers-erase lo (x ∷ rs) (suc i) r w s e h =
    ground (arith, covers-erase (x.last + 1) rs i r w s.3 e h, covers-get (x.last + 1) rs i r s.3 e)

IsSpaced-set :
    (lo : ℕ) (rs : List Range) (i : ℕ) (r : Range)
    → IsSpaced lo rs
    → get_elem? rs i ≡ some r
    → r.first < r.last
    → IsSpaced lo (set rs i (taken r))
IsSpaced-set lo [] i r s e h = tt
IsSpaced-set lo (x ∷ rs) zero r s e h = ground arith
IsSpaced-set lo (x ∷ rs) (suc i) r s e h = (s.0, s.1, s.2, IsSpaced-set (x.last + 1) rs i r s.3 e h)

IsSpaced-erase : (lo : ℕ) (rs : List Range) (i : ℕ) → IsSpaced lo rs → IsSpaced lo (erase_at rs i)
IsSpaced-erase lo [] i s = tt
IsSpaced-erase lo (x ∷ rs) zero s = IsSpaced-mono rs (omega arith) s.3
IsSpaced-erase lo (x ∷ rs) (suc i) s = (s.0, s.1, s.2, IsSpaced-erase (x.last + 1) rs i s.3)

-- What taking the identifier `num` does to a generator.
pub record Takes (g : IdGenerator) (num : ℕ) (g' : IdGenerator) : Type 0 where
  pub free : covers g.empty_ranges num ≡ true
  pub only : (w : ℕ) → covers g'.empty_ranges w ≡ (covers g.empty_ranges w && not (w == num))
  pub spaced : IsSpaced 0 g'.empty_ranges

after_take-Takes :
    (g : IdGenerator) (i : ℕ) (r : Range)
    → IsSpaced 0 g.empty_ranges
    → get_elem? g.empty_ranges i ≡ some r
    → Takes g r.first (after_take g.empty_ranges i (taken r))
after_take-Takes g i r s e =
    let (c, lo, le, hi) = covers-get 0 g.empty_ranges i r s e in
    elim (Bool-cases (range_empty (taken r))) [
      | inl gone ↦ rw gone (record {
        free = c;
        only = λ w. covers-erase 0 g.empty_ranges i r w s e (ground arith);
        spaced = IsSpaced-erase 0 g.empty_ranges i s;
      })
      | inr left ↦ rw left (record {
        free = c;
        only = λ w. covers-set 0 g.empty_ranges i r w s e (ground arith);
        spaced = IsSpaced-set 0 g.empty_ranges i r s e (ground arith);
      })
    ]

new_id-some :
    (g : IdGenerator) (r : Range)
    → IsSpaced 0 g.empty_ranges
    → get_elem? g.empty_ranges g.current_range ≡ some r
    → new_id g ≡ some (r.first, after_take g.empty_ranges g.current_range (taken r))
unfolding new_id
new_id-some g r s e =
    let c = covers-get 0 g.empty_ranges g.current_range r s e in rw (e, new_id) (ground arith)

pub new_id-none :
    (g : IdGenerator) → get_elem? g.empty_ranges g.current_range ≡ none → new_id g ≡ none
unfolding new_id
new_id-none g e = rw (e, new_id)

-- On ranges in order, a call succeeds whenever the iterator is inside the deque.
pub new_id-total :
    (g : IdGenerator)
    → IsSpaced 0 g.empty_ranges
    → g.current_range < length g.empty_ranges
    → (num : ℕ) × (g' : IdGenerator) × (new_id g ≡ some (num, g'))
new_id-total g s h = elim (Option-cases (get_elem? g.empty_ranges g.current_range)) [
  | inl e ↦ absurd (get_elem?-ne-none g.empty_ranges g.current_range h e)
  | inr (r, e) ↦ (r.first, after_take g.empty_ranges g.current_range (taken r), new_id-some g r s e)
]

-- On ranges in order, a successful call answers an identifier that was free, which is the only
-- one that is free no more, and keeps the ranges in order.
pub new_id-Takes :
    (g g' : IdGenerator) (num : ℕ)
    → IsSpaced 0 g.empty_ranges
    → new_id g ≡ some (num, g')
    → Takes g num g'
new_id-Takes g g' num s e = elim (Option-cases (get_elem? g.empty_ranges g.current_range)) [
  | inl n ↦ cc (new_id-none g n)
  | inr (r, m) ↦
      let (p, q) = some_pair-eq (sym (new_id-some g r s m) ∙ e) in
      subst₂ (Takes g) p q (after_take-Takes g g.current_range r s m)
]

length-erase_at : (rs : List Range) (i : ℕ) → i < length rs → length (erase_at rs i) + 1 ≡ length rs
length-erase_at [] i h = absurd (omega arith)
length-erase_at (x ∷ rs) zero h = omega arith
length-erase_at (x ∷ rs) (suc i) h = omega (arith, length-erase_at rs i (omega arith))

after_take-current :
    (rs : List Range) (i : ℕ) (r : Range)
    → i < length rs
    → let g' = after_take rs i r in
      (g'.current_range < length g'.empty_ranges)
      ⊎ (g'.current_range ≡ 0) × (length g'.empty_ranges ≡ 0)
after_take-current rs i r h = ground (arith, length-set rs i r, length-erase_at rs i h)

-- On ranges in order, a successful call leaves the iterator inside the deque, unless the last
-- free identifier is gone.
pub new_id-current :
    (g g' : IdGenerator) (num : ℕ)
    → IsSpaced 0 g.empty_ranges
    → g.current_range < length g.empty_ranges
    → new_id g ≡ some (num, g')
    → (g'.current_range < length g'.empty_ranges)
      ⊎ (g'.current_range ≡ 0) × (length g'.empty_ranges ≡ 0)
new_id-current g g' num s h e = elim (Option-cases (get_elem? g.empty_ranges g.current_range)) [
  | inl n ↦ cc (new_id-none g n)
  | inr (r, m) ↦
      let (p, q) = some_pair-eq (sym (new_id-some g r s m) ∙ e) in
      subst
        (λ (k : IdGenerator).
          (k.current_range < length k.empty_ranges)
          ⊎ (k.current_range ≡ 0) × (length k.empty_ranges ≡ 0))
        q (after_take-current g.empty_ranges g.current_range (taken r) h)
]
