-- ===== src/Wrapping/Tests.antt =====
-- Runs of the string wrapper.
use jcontainers_ng.Common.{
  ℕ, ◌+◌, ◌-◌, ◌*◌, ◌/◌, ◌≡◌, refl, ap, ◌∙◌, Bool, ltb, leb, if◌then◌else◌, none, some, List, [],
  ◌∷◌, arith, Bool-cases, inl, inr,
}
use jcontainers_ng.Wrapping
use jcontainers_ng.Wrapping.{Floats, Words, Lines, is_blank_or_space, wrap_text, wrap_string}
use jcontainers_ng.Wrapping.Kept.{
  concat, characters, without_blanks, SplitsBlanks, wrap_text-characters,
}
use jcontainers_ng.Wrapping.Ends.{has_blank, wrap_text-hangs}

-- Fractions that are not negative; a difference below 0 is 0.
abbrev fractions : Floats
fractions = record {
  Float = ℕ × ℕ;
  from_int = λ n. (n, 1);
  add = λ x y. (x.0 * y.1 + y.0 * x.1, x.1 * y.1);
  sub = λ x y. (x.0 * y.1 - y.0 * x.1, x.1 * y.1);
  div = λ x y. (x.0 * y.1, x.1 * y.0);
  square = λ x. (x.0 * x.0, x.1 * x.1);
  fabs = λ x. x;
  lt = λ x y. ltb (x.0 * y.1) (y.0 * x.1);
  le = λ x y. leb (x.0 * y.1) (y.0 * x.1);
  to_int = λ x. x.0 / x.1;
  epsilon = (1, 100000);
  is_closer = λ m n. ltb (m * 5) (n * 6);
}

push_head : ℕ → Words → Words
push_head c [] = (c ∷ []) ∷ []
push_head c (w ∷ ws) = (c ∷ w) ∷ ws

split_text : (ℕ → Bool) → List ℕ → Words
split_text p [] = [] ∷ []
split_text p (c ∷ s) = let rest = split_text p s in if p c then [] ∷ rest else push_head c rest

concat-push_head : (c : ℕ) (ws : Words) → concat (push_head c ws) ≡ c ∷ concat ws
unfolding concat push_head
concat-push_head c [] = refl
concat-push_head c (w ∷ ws) = refl

split_text-SplitsBlanks : SplitsBlanks split_text
unfolding concat split_text without_blanks
split_text-SplitsBlanks [] = refl
split_text-SplitsBlanks (c ∷ s) = elim (Bool-cases (is_blank_or_space c)) [
  | inl blank ↦ rw blank (split_text-SplitsBlanks s)
  | inr other ↦ rw other (
      concat-push_head c (split_text is_blank_or_space s)
      ∙ ap (λ t. c ∷ t) (split_text-SplitsBlanks s))
]

-- "ab cd"
abbrev two_words : List ℕ
two_words = b'a' ∷ b'b' ∷ b' ' ∷ b'c' ∷ b'd' ∷ []

set_two_words :
    Wrapping.initial_set fractions split_text 9 two_words 5
    ≡ some (((b'a' ∷ b'b' ∷ []) ∷ []) ∷ ([] ∷ (b'c' ∷ b'd' ∷ []) ∷ []) ∷ [])
unfolding Wrapping.initial_set Wrapping.initial_lines Wrapping.characters_per_line
    Wrapping.nearest_break Wrapping.left_break Wrapping.blank_at is_blank_or_space
    Wrapping.right_break Wrapping.count_to_blank split_text push_head
set_two_words = refl

-- One word moves to the second line, and then nothing gets better.
balance_four_words :
    Wrapping.balance fractions 40
      (((b'a' ∷ []) ∷ (b'b' ∷ []) ∷ (b'c' ∷ []) ∷ []) ∷ ((b'd' ∷ []) ∷ []) ∷ [])
    ≡ ((b'a' ∷ []) ∷ (b'b' ∷ []) ∷ []) ∷ ((b'c' ∷ []) ∷ (b'd' ∷ []) ∷ []) ∷ []
unfolding Wrapping.balance Wrapping.try_lines Wrapping.try_line Wrapping.do_incr
    Wrapping.incr_length Wrapping.decr_length Wrapping.move_to_next Wrapping.move_to_previous
    Wrapping.pop_back Wrapping.line_at Wrapping.char_diff_in Wrapping.mean_square
    Wrapping.sum_squares Wrapping.average Wrapping.char_count Wrapping.line_char_count
    Wrapping.sum_sizes
balance_four_words = refl

wrap_text-characters_example :
    (lines : Lines) × (wrap_text fractions split_text 5 two_words 3 ≡ some lines)
    × (characters lines ≡ without_blanks two_words)
unfolding Wrapping.characters_per_line
wrap_text-characters_example =
    wrap_text-characters fractions split_text split_text-SplitsBlanks 5 two_words 3 (omega arith)
      (omega arith)

-- A blank alone, with lines of 40.
wrap_text-hangs_example : wrap_text fractions split_text 1000 (b' ' ∷ []) 40 ≡ none
unfolding Wrapping.characters_per_line has_blank is_blank_or_space
wrap_text-hangs_example =
    wrap_text-hangs fractions split_text (b' ' ∷ []) 40 refl (λ n h. ground arith) refl 1000
