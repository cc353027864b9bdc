-- ===== src/Wrapping/Ends.antt =====
-- The loop of `initialSet` when a line has no room for a character: it stops at the first blank and
-- goes on from there for ever.
use jcontainers_ng.Common.{
  ℕ, zero, suc, ◌<◌, ◌≡◌, refl, ap, ◌∙◌, Bool, true, false, ◌||◌, none, List, [], ◌∷◌, arith,
  length, drop, Bool-cases, inl, inr,
}
use jcontainers_ng.Wrapping.{
  Floats, Words, is_blank_or_space, count_to_blank, nearest_break, left_break, right_break,
  initial_lines, initial_set, wrap_text, characters_per_line,
}

unfoldable pub has_blank : List ℕ → Bool
has_blank [] = false
has_blank (c ∷ s) = is_blank_or_space c || has_blank s

-- A blank stands where the count ends.
count_to_blank-drop :
    (s : List ℕ)
    → has_blank s ≡ true
    → (c : ℕ) × (t : List ℕ) × (drop (count_to_blank s) s ≡ c ∷ t) × (is_blank_or_space c ≡ true)
unfolding has_blank count_to_blank
count_to_blank-drop [] h = cc
count_to_blank-drop (c ∷ s) h = elim (Bool-cases (is_blank_or_space c)) [
  | inl blank ↦ (c, s, rw blank refl, blank)
  | inr other ↦ let (d, t, e, b) = count_to_blank-drop s (rw other at h) in (d, t, rw other e, b)
]

module _ (fl : Floats) where
  nearest_break-zero : (s : List ℕ) → nearest_break fl s 0 ≡ count_to_blank s
  unfolding nearest_break left_break right_break
  nearest_break-zero s = omega arith

  module _ (split : (ℕ → Bool) → List ℕ → Words) (cpl : fl.Float) (no_room : fl.to_int cpl ≡ 0)
      (small : (n : ℕ) → 0 < n → fl.le cpl (fl.from_int n) ≡ true) where
    initial_round :
        (fuel c : ℕ) (s : List ℕ)
        → initial_lines fl split fuel cpl (drop (count_to_blank (c ∷ s)) (c ∷ s)) ≡ none
        → initial_lines fl split (suc fuel) cpl (c ∷ s) ≡ none
    unfolding initial_lines
    initial_round fuel c s e =
        let long = small (length (c ∷ s)) (omega arith) in
        let at_blank : nearest_break fl (c ∷ s) (fl.to_int cpl) ≡ count_to_blank (c ∷ s) =
          ap (nearest_break fl (c ∷ s)) no_room ∙ nearest_break-zero (c ∷ s) in
        rw (long, initial_lines) (rw at_blank (rw e refl))

    at_blank-none :
        (fuel c : ℕ) (s : List ℕ)
        → is_blank_or_space c ≡ true
        → initial_lines fl split fuel cpl (c ∷ s) ≡ none
    unfolding initial_lines
    at_blank-none zero c s b = refl
    at_blank-none (suc fuel) c s b =
        let here : count_to_blank (c ∷ s) ≡ 0 = unfold count_to_blank in rw b refl in
        initial_round fuel c s (rw here (at_blank-none fuel c s b))

    initial_lines-none :
        (fuel : ℕ) (s : List ℕ) → has_blank s ≡ true → initial_lines fl split fuel cpl s ≡ none
    unfolding initial_lines has_blank
    initial_lines-none fuel [] h = cc
    initial_lines-none zero (c ∷ s) h = refl
    initial_lines-none (suc fuel) (c ∷ s) h =
        let (d, t, e, b) = count_to_blank-drop (c ∷ s) h in
        initial_round fuel c s (rw e (at_blank-none fuel d t b))

  -- When the computed length of a line is below 1, so that it is 0 as an `int` and at most any number
  -- of characters but 0, and the text has a blank, the loop of `initialSet` never ends: no number of
  -- rounds is enough.
  pub wrap_text-hangs :
      (split : (ℕ → Bool) → List ℕ → Words) (text : List ℕ) (chars_per_line : ℕ)
      → fl.to_int (characters_per_line fl (length text) chars_per_line) ≡ 0
      → ((n : ℕ)
          → 0 < n
          → fl.le (characters_per_line fl (length text) chars_per_line) (fl.from_int n) ≡ true)
      → has_blank text ≡ true
      → (fuel : ℕ) → wrap_text fl split fuel text chars_per_line ≡ none
  unfolding wrap_text has_blank
  wrap_text-hangs split [] n z small h fuel = cc
  wrap_text-hangs split (c ∷ text) n z small h fuel =
      let cpl = characters_per_line fl (length (c ∷ text)) n in
      let e : initial_set fl split fuel (c ∷ text) n ≡ none =
        unfold initial_set in initial_lines-none split cpl z small fuel (c ∷ text) h in
      rw (e, wrap_text) refl
