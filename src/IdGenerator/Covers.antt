-- ===== src/IdGenerator/Covers.antt =====
-- The set of free identifiers that a list of ranges stands for, and the well-formedness of the list.
use jcontainers_ng.Common.{
  ℕ, ◌+◌, ◌≤◌, ◌<◌, ◌≡◌, refl, Bool, false, true, ◌&&◌, ◌||◌, List, [], ◌∷◌, leb, arith,
}
use jcontainers_ng.IdGenerator.{Range, id_mod}

abbrev pub in_range : Range → ℕ → Bool
in_range r v = leb r.first v && leb v r.last

unfoldable pub covers : List Range → ℕ → Bool
covers [] v = false
covers (r ∷ rs) v = in_range r v || covers rs v

-- Ranges are not empty, rise with a gap between neighbours, start above `lo`, and end below the
-- largest word.
abbrev pub IsSpaced : ℕ → List Range → Type 0
IsSpaced lo [] = Unit {0}
IsSpaced lo (r ∷ rs) =
    (lo < r.first) × (r.first ≤ r.last) × (r.last + 1 < id_mod) × IsSpaced (r.last + 1) rs

pub IsSpaced-mono : {lo hi : ℕ} (rs : List Range) → lo ≤ hi → IsSpaced hi rs → IsSpaced lo rs
IsSpaced-mono [] h s = tt
IsSpaced-mono (r ∷ rs) h s = (omega arith, s.1, s.2, s.3)

-- Nothing at or below the bound is free.
pub covers-above : (lo v : ℕ) (rs : List Range) → IsSpaced lo rs → v ≤ lo → covers rs v ≡ false
unfolding covers
covers-above lo v [] s h = refl
covers-above lo v (r ∷ rs) s h = ground (arith, covers-above (r.last + 1) v rs s.3)

pub covers-gt : (lo v : ℕ) (rs : List Range) → IsSpaced lo rs → covers rs v ≡ true → lo < v
unfolding covers
covers-gt lo v [] s h = ground arith
covers-gt lo v (r ∷ rs) s h = ground (arith, covers-gt (r.last + 1) v rs s.3)
