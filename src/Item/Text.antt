-- ===== src/Item/Text.antt =====
-- `_stricmp` on the bytes of two C strings: ASCII letters count as their lower-case forms.
use jcontainers_ng.Common.{
  ℕ, ◌+◌, ◌≡◌, refl, Bool, true, false, not, ◌&&◌, ◌||◌, List, [], ◌∷◌, ltb, leb, ◌==◌,
  if◌then◌else◌, arith,
}

-- The characters up to the first zero byte.
abbrev pub c_str : List ℕ → List ℕ
c_str [] = []
c_str (c ∷ s) = if c == 0 then [] else c ∷ c_str s

abbrev pub to_lower : ℕ → ℕ
to_lower c = if leb b'A' c && leb c b'Z' then c + 32 else c

unfoldable pub stricmp_eq : List ℕ → List ℕ → Bool
stricmp_eq [] [] = true
stricmp_eq (a ∷ s) (b ∷ t) = (to_lower a == to_lower b) && stricmp_eq s t
stricmp_eq _ _ = false

unfoldable pub stricmp_lt : List ℕ → List ℕ → Bool
stricmp_lt [] [] = false
stricmp_lt [] (b ∷ t) = true
stricmp_lt (a ∷ s) [] = false
stricmp_lt (a ∷ s) (b ∷ t) =
    ltb (to_lower a) (to_lower b) || ((to_lower a == to_lower b) && stricmp_lt s t)

-- It is a strict weak order, and its equality is that neither text is less.
pub stricmp_lt_irrefl : (s : List ℕ) → stricmp_lt s s ≡ false
unfolding stricmp_lt
stricmp_lt_irrefl [] = refl
stricmp_lt_irrefl (a ∷ s) = ground (arith, stricmp_lt_irrefl s)

pub stricmp_lt_split :
    (s t u : List ℕ) → stricmp_lt s u ≡ true → (stricmp_lt s t || stricmp_lt t u) ≡ true
unfolding stricmp_lt
stricmp_lt_split [] [] u h = h
stricmp_lt_split [] (b ∷ t) u h = refl
stricmp_lt_split (a ∷ s) [] [] h = h
stricmp_lt_split (a ∷ s) [] (c ∷ u) h = refl
stricmp_lt_split (a ∷ s) (b ∷ t) [] h = cc
stricmp_lt_split (a ∷ s) (b ∷ t) (c ∷ u) h =
    split_step (to_lower a) (to_lower b) (to_lower c) (stricmp_lt s u) (stricmp_lt s t)
      (stricmp_lt t u) (stricmp_lt_split s t u) h
  where
    split_step :
        (a b c : ℕ) (su st tu : Bool)
        → (su ≡ true → (st || tu) ≡ true)
        → (ltb a c || ((a == c) && su)) ≡ true
        → ((ltb a b || ((a == b) && st)) || (ltb b c || ((b == c) && tu))) ≡ true
    split_step a b c su st tu ih h = ground arith

pub stricmp_lt_asym : (s t : List ℕ) → stricmp_lt s t ≡ true → stricmp_lt t s ≡ false
unfolding stricmp_lt
stricmp_lt_asym [] [] h = refl
stricmp_lt_asym [] (b ∷ t) h = refl
stricmp_lt_asym (a ∷ s) [] h = cc
stricmp_lt_asym (a ∷ s) (b ∷ t) h =
    asym_step (to_lower a) (to_lower b) (stricmp_lt s t) (stricmp_lt t s) (stricmp_lt_asym s t) h
  where
    asym_step :
        (a b : ℕ) (st ts : Bool)
        → (st ≡ true → ts ≡ false)
        → (ltb a b || ((a == b) && st)) ≡ true
        → (ltb b a || ((b == a) && ts)) ≡ false
    asym_step a b st ts ih h = ground arith

pub stricmp_eq_incomparable :
    (s t : List ℕ) → stricmp_eq s t ≡ (not (stricmp_lt s t) && not (stricmp_lt t s))
unfolding stricmp_eq stricmp_lt
stricmp_eq_incomparable [] [] = refl
stricmp_eq_incomparable [] (b ∷ t) = refl
stricmp_eq_incomparable (a ∷ s) [] = refl
stricmp_eq_incomparable (a ∷ s) (b ∷ t) =
    eq_step (to_lower a) (to_lower b) _ _ _ (stricmp_eq_incomparable s t)
  where
    eq_step :
        (a b : ℕ) (e st ts : Bool)
        → e ≡ (not st && not ts)
        → ((a == b) && e) ≡ (not (ltb a b || ((a == b) && st)) && not (ltb b a || ((b == a) && ts)))
    eq_step a b e st ts ih = ground arith
