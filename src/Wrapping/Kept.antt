-- ===== src/Wrapping/Kept.antt =====
-- The characters of a text are kept: moving words between lines changes neither the words nor their
-- order, and the first lines hold every character that is not blank.
use mathlib.Core.List.{append_assoc, append-nil}
use jcontainers_ng.Common.{
  ℕ, zero, suc, ◌+◌, ◌≤◌, ◌<◌, ◌≡◌, ◌≢◌, refl, ap, sym, ◌∙◌, Bool, true, false, leb, if◌then◌else◌,
  none, some, List, [], ◌∷◌, ◌++◌, arith, length, take, drop, length-drop, Bool-cases, Option-cases,
  inl, inr, some-eq,
}
use jcontainers_ng.Wrapping.{
  Floats, Words, Lines, is_blank_or_space, pop_back, move_to_next, move_to_previous, incr_length,
  decr_length, do_incr, try_line, try_lines, balance, nearest_break, right_break, initial_lines,
  initial_set, wrap_text, characters_per_line,
}

unfoldable pub concat {ℓ} : {A : Type ℓ} → List (List A) → List A
concat [] = []
concat (xs ∷ xss) = xs ++ concat xss

-- The characters of the words of the lines, in their order.
abbrev pub characters : Lines → List ℕ
characters lines = concat (concat lines)

unfoldable pub without_blanks : List ℕ → List ℕ
without_blanks [] = []
without_blanks (c ∷ s) =
    let rest = without_blanks s in if is_blank_or_space c then rest else c ∷ rest

concat-append {ℓ} :
    {A : Type ℓ} (xs ys : List (List A)) → concat (xs ++ ys) ≡ concat xs ++ concat ys
unfolding concat
concat-append [] ys = refl
concat-append (x ∷ xs) ys =
    ap (λ r. x ++ r) (concat-append xs ys) ∙ sym (append_assoc x (concat xs) (concat ys))

without_blanks-append :
    (s t : List ℕ) → without_blanks (s ++ t) ≡ without_blanks s ++ without_blanks t
unfolding without_blanks
without_blanks-append [] t = refl
without_blanks-append (c ∷ s) t = elim (Bool-cases (is_blank_or_space c)) [
  | inl blank ↦ rw blank (without_blanks-append s t)
  | inr other ↦ rw other (ap (λ r. c ∷ r) (without_blanks-append s t))
]

take-append-drop_lem : (n : ℕ) (s : List ℕ) → take n s ++ drop n s ≡ s
take-append-drop_lem zero s = refl
take-append-drop_lem (suc n) [] = refl
take-append-drop_lem (suc n) (c ∷ s) = ap (λ r. c ∷ r) (take-append-drop_lem n s)

pop_back-some {ℓ} : {A : Type ℓ} (x : A) (xs : List A) → pop_back (x ∷ xs) ≢ none
unfolding pop_back
pop_back-some x xs e = elim (Option-cases (pop_back xs)) [
  | inl last ↦ cc (rw (last, pop_back) at e)
  | inr (r, more) ↦ cc (rw (more, pop_back) at e)
]

pop_back-append {ℓ} :
    {A : Type ℓ} (xs : List A) (r : List A × A) → pop_back xs ≡ some r → xs ≡ r.0 ++ (r.1 ∷ [])
unfolding pop_back
pop_back-append [] r e = cc
pop_back-append (x ∷ []) r e = let e' = some-eq e in rw (← e') refl
pop_back-append (x ∷ y ∷ ys) r e = elim (Option-cases (pop_back (y ∷ ys))) [
  | inl last ↦ absurd (pop_back-some y ys last)
  | inr (q, more) ↦
      let e' = some-eq (rw (more, pop_back) at e) in
      rw (← e') (ap (λ t. x ∷ t) (pop_back-append (y ∷ ys) q more))
]

concat-move_to_next : (i : ℕ) (lines : Lines) → concat (move_to_next i lines) ≡ concat lines
unfolding concat move_to_next
concat-move_to_next zero [] = refl
concat-move_to_next zero (ln ∷ []) = refl
concat-move_to_next zero (from ∷ to ∷ lines) = elim (Option-cases (pop_back from)) [
  | inl empty ↦ rw (empty, move_to_next) refl
  | inr (r, moved) ↦
      rw (moved, move_to_next)
        (sym (append_assoc r.0 (r.1 ∷ []) (to ++ concat lines))
          ∙ ap (λ t. t ++ (to ++ concat lines)) (sym (pop_back-append from r moved)))
]
concat-move_to_next (suc i) [] = refl
concat-move_to_next (suc i) (ln ∷ lines) = ap (λ t. ln ++ t) (concat-move_to_next i lines)

concat-move_to_previous : (i : ℕ) (lines : Lines) → concat (move_to_previous i lines) ≡ concat lines
unfolding concat move_to_previous
concat-move_to_previous zero [] = refl
concat-move_to_previous zero (ln ∷ []) = refl
concat-move_to_previous zero (to ∷ [] ∷ lines) = refl
concat-move_to_previous zero (to ∷ (word ∷ from) ∷ lines) =
    append_assoc to (word ∷ []) (from ++ concat lines)
concat-move_to_previous (suc i) [] = refl
concat-move_to_previous (suc i) (ln ∷ lines) = ap (λ t. ln ++ t) (concat-move_to_previous i lines)

concat-do_incr :
    (incr : Bool) (i : ℕ) (lines : Lines) → concat (do_incr incr i lines) ≡ concat lines
unfolding do_incr incr_length decr_length
concat-do_incr true zero lines = elim (Bool-cases (leb 2 (length lines))) [
  | inl two ↦ rw two (concat-move_to_previous 0 lines)
  | inr one ↦ rw one refl
]
concat-do_incr true (suc i) lines = concat-move_to_next i lines
concat-do_incr false zero lines = elim (Bool-cases (leb 2 (length lines))) [
  | inl two ↦ rw two (concat-move_to_next 0 lines)
  | inr one ↦ rw one refl
]
concat-do_incr false (suc i) lines = concat-move_to_previous i lines

concat-if :
    (b : Bool) (x y : Lines) (z : Words)
    → concat x ≡ z
    → concat y ≡ z
    → concat (if b then x else y) ≡ z
concat-if true x y z h k = h
concat-if false x y z h k = k

module _ (fl : Floats) where
  concat-try_line : (lines : Lines) (i : ℕ) → concat (try_line fl lines i) ≡ concat lines
  unfolding try_line
  concat-try_line lines i =
      concat-if _ _ _ (concat lines) (concat-do_incr _ i _ ∙ concat-do_incr _ i lines)
        (concat-do_incr _ i lines)

  concat-try_lines :
      (left i : ℕ) (lines : Lines) → concat (try_lines fl left i lines) ≡ concat lines
  unfolding try_lines
  concat-try_lines zero i lines = refl
  concat-try_lines (suc left) i lines =
      concat-try_lines left (i + 1) (try_line fl lines i) ∙ concat-try_line lines i

  pub concat-balance :
      (rounds : ℕ) (lines : Lines) → concat (balance fl rounds lines) ≡ concat lines
  unfolding balance
  concat-balance zero lines = refl
  concat-balance (suc rounds) lines =
      let next = concat-try_lines (length lines) 0 lines in
      concat-if _ _ _ (concat lines) next
        (concat-balance rounds (try_lines fl (length lines) 0 lines) ∙ next)

-- `boost::split` at single characters: the tokens hold the characters in between.
abbrev pub SplitsBlanks : ((ℕ → Bool) → List ℕ → Words) → Type 0
SplitsBlanks split = (s : List ℕ) → concat (split is_blank_or_space s) ≡ without_blanks s

module _ (fl : Floats) where
  -- A break is past the start when its middle is.
  nearest_break-pos : (rest : List ℕ) (middle : ℕ) → 0 < middle → 0 < nearest_break fl rest middle
  unfolding nearest_break right_break
  nearest_break-pos rest middle h = ground arith

  initial_step :
      (split : (ℕ → Bool) → List ℕ → Words) (fuel : ℕ) (cpl : fl.Float) (c : ℕ) (text : List ℕ)
      (lines : Lines)
      → fl.le cpl (fl.from_int (length (c ∷ text))) ≡ true
      → initial_lines fl split fuel cpl
          (drop (nearest_break fl (c ∷ text) (fl.to_int cpl)) (c ∷ text))
        ≡ some lines
      → initial_lines fl split (suc fuel) cpl (c ∷ text)
        ≡ some (
            split is_blank_or_space (take (nearest_break fl (c ∷ text) (fl.to_int cpl)) (c ∷ text))
            ∷ lines)
  unfolding initial_lines
  initial_step split fuel cpl c text lines long more = rw (long, initial_lines) (rw more refl)

  wrap_step :
      (split : (ℕ → Bool) → List ℕ → Words) (fuel c : ℕ) (text : List ℕ) (n : ℕ) (lines : Lines)
      → initial_lines fl split fuel (characters_per_line fl (length (c ∷ text)) n) (c ∷ text)
        ≡ some lines
      → wrap_text fl split fuel (c ∷ text) n ≡ some (balance fl 40 lines)
  unfolding wrap_text
  wrap_step split fuel c text n lines first =
      let e : initial_set fl split fuel (c ∷ text) n ≡ some lines = unfold initial_set in first in
      rw (e, wrap_text) refl

  module _ (split : (ℕ → Bool) → List ℕ → Words) (law : SplitsBlanks split) where
    initial_lines-characters :
        (fuel : ℕ) (cpl : fl.Float) (text : List ℕ)
        → 0 < fl.to_int cpl
        → length text ≤ fuel
        → (lines : Lines) × (initial_lines fl split fuel cpl text ≡ some lines)
          × (characters lines ≡ without_blanks text)
    unfolding initial_lines concat
    initial_lines-characters zero cpl [] p h = ([], refl, unfold without_blanks in refl)
    initial_lines-characters (suc fuel) cpl [] p h = ([], refl, unfold without_blanks in refl)
    initial_lines-characters zero cpl (c ∷ text) p h = absurd (omega arith)
    initial_lines-characters (suc fuel) cpl (c ∷ text) p h =
        elim (Bool-cases (fl.le cpl (fl.from_int (length (c ∷ text))))) [
          | inr short ↦ (
            split is_blank_or_space (c ∷ text) ∷ [],
            rw (short, initial_lines) refl,
            ap concat (append-nil (split is_blank_or_space (c ∷ text))) ∙ law (c ∷ text),
          )
          | inl long ↦
              let selected = nearest_break fl (c ∷ text) (fl.to_int cpl) in
              let fewer : length (drop selected (c ∷ text)) ≤ fuel = omega (
                arith,
                h,
                length-drop selected (c ∷ text),
                nearest_break-pos (c ∷ text) (fl.to_int cpl) p,
              ) in
              let (lines, more, kept) =
                initial_lines-characters fuel cpl (drop selected (c ∷ text)) p fewer in
              (
                split is_blank_or_space (take selected (c ∷ text)) ∷ lines,
                initial_step split fuel cpl c text lines long more,
                concat-append (split is_blank_or_space (take selected (c ∷ text))) (concat lines)
                    ∙ ap (λ t. t ++ characters lines) (law (take selected (c ∷ text)))
                    ∙ ap (λ t. without_blanks (take selected (c ∷ text)) ++ t) kept
                    ∙ sym (
                        without_blanks-append (take selected (c ∷ text)) (drop selected (c ∷ text)))
                    ∙ ap without_blanks (take-append-drop_lem selected (c ∷ text)),
              )
        ]

    -- When a line has room for at least one character, the call ends after as many rounds of the loop as
    -- the text has characters, and the lines hold the characters of the text that are not blank, all
    -- of them and in their order. The split at blanks gives what is between the blanks.
    pub wrap_text-characters :
        (fuel : ℕ) (text : List ℕ) (chars_per_line : ℕ)
        → 0 < fl.to_int (characters_per_line fl (length text) chars_per_line)
        → length text ≤ fuel
        → (lines : Lines) × (wrap_text fl split fuel text chars_per_line ≡ some lines)
          × (characters lines ≡ without_blanks text)
    unfolding wrap_text initial_set
    wrap_text-characters fuel [] n p h = ([], refl, unfold concat without_blanks in refl)
    wrap_text-characters fuel (c ∷ text) n p h =
        let (lines, first, kept) =
          initial_lines-characters fuel (characters_per_line fl (length (c ∷ text)) n) (c ∷ text) p
            h in
        (
          balance fl 40 lines,
          wrap_step split fuel c text n lines first,
          ap concat (concat-balance fl 40 lines) ∙ kept,
        )
