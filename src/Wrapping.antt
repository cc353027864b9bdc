-- ===== src/Wrapping.antt =====
-- src/JContainers/src/api_3/string_wrapper.cpp: a text broken into lines of about the same length. A
-- text is its code points, and a range of it is the list of its code points. `float`, the conversion
-- from and to UTF-8, and `boost::split` are parameters.
pub mod Kept
pub mod Ends
pub mod Tests
use mathlib.Core.List
use jcontainers_ng.Common.{
  ℕ, zero, suc, ◌+◌, ◌-◌, Bool, true, false, not, ◌&&◌, ◌||◌, ◌==◌, leb, ltb, if◌then◌else◌, Option,
  none, some, List, [], ◌∷◌, ◌++◌, length, take, drop, ℤ, pos, negsuc,
}

-- `float` with the operations of the code; `times_ratio` is the multiplication by 1.2 in `double`, as a
-- comparison of its left side with the product.
pub record Floats : Type 1 where
  pub Float : Type 0
  pub from_int : ℕ → Float
  pub add : Float → Float → Float
  pub sub : Float → Float → Float
  pub div : Float → Float → Float
  pub square : Float → Float
  pub fabs : Float → Float
  pub lt : Float → Float → Bool
  pub le : Float → Float → Bool
  pub to_int : Float → ℕ
  pub epsilon : Float
  pub is_closer : ℕ → ℕ → Bool

abbrev pub Words : Type 0
Words = List (List ℕ)

abbrev pub Lines : Type 0
Lines = List Words

-- `is_blank_or_space`
unfoldable pub is_blank_or_space : ℕ → Bool
is_blank_or_space c =
    c == 0x20
    || c == 0xa0
    || c == 10
    || c == 13
    || c == 9
    || c == 8
    || c == 12
    || (leb 0x2000 c && leb c 0x200b && not (c == 0x2002))
    || c == 0x202f
    || c == 0x205f
    || c == 0x3000
    || c == 0xfeff

-- `line::charCount`: the words with a blank between two of them.
unfoldable pub sum_sizes : Words → ℕ
sum_sizes [] = 0
sum_sizes (w ∷ words) = length w + sum_sizes words

unfoldable pub line_char_count : Words → ℕ
line_char_count words = sum_sizes words + (length words - 1)

-- `line_set::charCount`
unfoldable pub char_count : Lines → ℕ
char_count [] = 0
char_count (ln ∷ lines) = line_char_count ln + char_count lines

-- The words but the last, and the last.
unfoldable pub pop_back {ℓ} : {A : Type ℓ} → List A → Option (List A × A)
pop_back [] = none
pop_back (x ∷ xs) = elim (pop_back xs) [ none ↦ some ([], x) | some r ↦ some (x ∷ r.0, r.1) ]

-- The last word of line `i` goes to the front of the line after it.
unfoldable pub move_to_next : ℕ → Lines → Lines
move_to_next zero (from ∷ to ∷ lines) = elim (pop_back from) [
  | none ↦ from ∷ to ∷ lines
  | some r ↦ r.0 ∷ (r.1 ∷ to) ∷ lines
]
move_to_next (suc i) (ln ∷ lines) = ln ∷ move_to_next i lines
move_to_next _ lines = lines

-- The first word of the line after line `i` goes to the end of line `i`.
unfoldable pub move_to_previous : ℕ → Lines → Lines
move_to_previous zero (to ∷ (word ∷ from) ∷ lines) = (to ++ (word ∷ [])) ∷ from ∷ lines
move_to_previous (suc i) (ln ∷ lines) = ln ∷ move_to_previous i lines
move_to_previous _ lines = lines

unfoldable pub incr_length : ℕ → Lines → Lines
incr_length zero lines = if leb 2 (length lines) then move_to_previous 0 lines else lines
incr_length (suc i) lines = move_to_next i lines

unfoldable pub decr_length : ℕ → Lines → Lines
decr_length zero lines = if leb 2 (length lines) then move_to_next 0 lines else lines
decr_length (suc i) lines = move_to_previous i lines

-- `operation::doIncr`; `revert` is the same call with the other direction.
unfoldable pub do_incr : Bool → ℕ → Lines → Lines
do_incr incr i lines = if incr then incr_length i lines else decr_length i lines

abbrev pub revert : Bool → ℕ → Lines → Lines
revert increase i lines = do_incr (not increase) i lines

-- The byte past the end is a terminator, which is no blank.
unfoldable pub blank_at : List ℕ → ℕ → Bool
blank_at [] i = false
blank_at (c ∷ s) zero = is_blank_or_space c
blank_at (c ∷ s) (suc i) = blank_at s i

-- The first loop of `nearestBreak`, from `middle` back to the start of the range.
unfoldable pub left_break : List ℕ → ℕ → ℕ
left_break rest zero = 0
left_break rest (suc i) =
    let back = left_break rest i in if blank_at rest (suc i) then suc i else back

-- Its second loop, forward to the end.
unfoldable pub count_to_blank : List ℕ → ℕ
count_to_blank [] = 0
count_to_blank (c ∷ s) = let more = count_to_blank s in if is_blank_or_space c then 0 else suc more

unfoldable pub right_break : List ℕ → ℕ → ℕ
right_break rest middle = middle + count_to_blank (drop middle rest)

module _ (fl : Floats) where
  open fl use {Float, from_int, add, sub, div, square, fabs, lt, le, to_int, epsilon, is_closer}

  -- `charactersPerLine`
  unfoldable pub characters_per_line : ℕ → ℕ → Float
  characters_per_line total max_chars_per_line =
      div (from_int total) (add (from_int 1) (div (from_int total) (from_int max_chars_per_line)))

  unfoldable pub nearest_break : List ℕ → ℕ → ℕ
  nearest_break rest middle =
      let left = left_break rest middle in
      let right = right_break rest middle in
      if not (left == 0) && is_closer (middle - left) (right - middle) then left else right

  unfoldable pub average : Lines → Float
  average lines = div (from_int (char_count lines)) (from_int (length lines))

  -- `charDiffIn`
  unfoldable pub char_diff_in : Lines → Words → Float
  char_diff_in lines ln = sub (from_int (line_char_count ln)) (average lines)

  unfoldable pub sum_squares : Float → Lines → Float → Float
  sum_squares avg [] val = val
  sum_squares avg (ln ∷ lines) val =
      sum_squares avg lines (add val (square (sub (from_int (line_char_count ln)) avg)))

  unfoldable pub mean_square : Lines → Float
  mean_square lines = div (sum_squares (average lines) lines (from_int 0)) (from_int (length lines))

  unfoldable pub line_at : Lines → ℕ → Words
  line_at [] i = []
  line_at (ln ∷ lines) zero = ln
  line_at (ln ∷ lines) (suc i) = line_at lines i

  -- The body of the inner loop of `wrap_string`.
  unfoldable pub try_line : Lines → ℕ → Lines
  try_line lines i =
      let need_incr = lt (char_diff_in lines (line_at lines i)) (from_int 0) in
      let moved = do_incr need_incr i lines in
      if lt (mean_square lines) (mean_square moved) then revert need_incr i moved else moved

  -- The inner loop, with the number of lines that are left.
  unfoldable pub try_lines : ℕ → ℕ → Lines → Lines
  try_lines zero i lines = lines
  try_lines (suc left) i lines = try_lines left (i + 1) (try_line lines i)

  -- The outer loop, with the rounds that are left of its 40.
  unfoldable pub balance : ℕ → Lines → Lines
  balance zero lines = lines
  balance (suc rounds) lines =
      let next = try_lines (length lines) 0 lines in
      let more = balance rounds next in
      if lt (fabs (sub (mean_square lines) (mean_square next))) epsilon then next else more

  module _ (split : (ℕ → Bool) → List ℕ → Words) where
    -- The loop of `initialSet`, on fuel: `none` is fuel that ran out.
    unfoldable pub initial_lines : ℕ → Float → List ℕ → Option Lines
    initial_lines fuel cpl [] = some []
    initial_lines zero cpl (c ∷ rest) = none
    initial_lines (suc fuel) cpl (c ∷ rest) =
        let all = c ∷ rest in
        let selected = nearest_break all (to_int cpl) in
        elim (le cpl (from_int (length all))) [
          | false ↦ some (split is_blank_or_space all ∷ [])
          | true ↦ elim (initial_lines fuel cpl (drop selected all)) [
            | none ↦ none
            | some lines ↦ some (split is_blank_or_space (take selected all) ∷ lines)
          ]
        ]

    unfoldable pub initial_set : ℕ → List ℕ → ℕ → Option Lines
    initial_set fuel text chars_per_line =
        initial_lines fuel (characters_per_line (length text) chars_per_line) text

    -- `wrap_string` on the decoded text.
    unfoldable pub wrap_text : ℕ → List ℕ → ℕ → Option Lines
    wrap_text fuel [] chars_per_line = some []
    wrap_text fuel (c ∷ text) chars_per_line = elim (initial_set fuel (c ∷ text) chars_per_line) [
      | none ↦ none
      | some lines ↦ some (balance 40 lines)
    ]

    module _ (from_bytes : List ℕ → Option (List ℕ)) (to_bytes : List ℕ → List ℕ) where
      -- `toUTF8String`
      unfoldable pub to_utf8_string : Words → List ℕ
      to_utf8_string [] = []
      to_utf8_string (w ∷ words) = to_bytes w ++ (b' ' ∷ to_utf8_string words)

      unfoldable pub utf8_strings : Lines → Words
      utf8_strings [] = []
      utf8_strings (ln ∷ lines) = to_utf8_string ln ∷ utf8_strings lines

      -- The inner `none` is a null result, the outer one fuel that ran out.
      unfoldable pub wrap_decoded : ℕ → Option (List ℕ) → ℕ → Option (Option Words)
      wrap_decoded fuel none chars_per_line = some none
      wrap_decoded fuel (some text) chars_per_line = elim (wrap_text fuel text chars_per_line) [
        | none ↦ none
        | some lines ↦ some (some (utf8_strings lines))
      ]

      unfoldable pub wrap_string : ℕ → Option (List ℕ) → ℤ → Option (Option Words)
      wrap_string fuel (some source) (pos (suc n)) = wrap_decoded fuel (from_bytes source) (suc n)
      wrap_string fuel _ chars_per_line = some none
