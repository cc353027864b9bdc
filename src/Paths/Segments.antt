-- ===== src/Paths/Segments.antt =====
-- `parse_path` against the segments that a path is written with, and the length of what is left.
use jcontainers_ng.Common.{
  ℕ, ◌+◌, ◌≤◌, ◌<◌, ◌≡◌, refl, ap, ◌∙◌, Bool, true, false, not, ◌&&◌, Option, none, some, List, [],
  ◌∷◌, ◌++◌, ℤ, arith, length, some-eq,
}
use mathlib.Core.List.{append_assoc}
use jcontainers_ng.Common.Numerals.{stoi}
use jcontainers_ng.Forms.Strings.{Mods, is_form_string}
use jcontainers_ng.Paths.{Key, int_key, string_key}
use jcontainers_ng.Paths.Parse.{
  KeyAndRest, find_if, is_key_end, is_bracket, name_key, index_key, after_bracket, parse_range,
}

pub find_if-length :
    (test : ℕ → Bool) (s : List ℕ)
    → length (find_if test s).0 + length (find_if test s).1 ≡ length s
unfolding find_if
find_if-length test [] = refl
find_if-length test (c ∷ s) = ground (arith, find_if-length test s)

-- No byte passes the test.
unfoldable pub none_pass : (ℕ → Bool) → List ℕ → Bool
none_pass test [] = true
none_pass test (c ∷ s) = not (test c) && none_pass test s

-- A text that ends, or goes on with a byte that passes.
abbrev pub Stops : (ℕ → Bool) → List ℕ → Type 0
Stops test [] = Unit
Stops test (c ∷ s) = test c ≡ true

pub find_if-append :
    (test : ℕ → Bool) (s t : List ℕ)
    → none_pass test s ≡ true
    → Stops test t
    → find_if test (s ++ t) ≡ (s, t)
unfolding find_if none_pass
find_if-append test [] [] h k = refl
find_if-append test [] (c ∷ t) h k = rw k refl
find_if-append test (c ∷ s) t h k = ground (arith, find_if-append test s t)

-- How many bytes are left to read; a range past the end counts as one.
abbrev pub left : Option (List ℕ) → ℕ
left none = 1
left (some rest) = length rest

-- What is left of a path is shorter.
name_key-shorter :
    (r : List ℕ × List ℕ) (k : KeyAndRest)
    → name_key r ≡ some k
    → left k.rest_of_path < length r.0 + length r.1
unfolding name_key
name_key-shorter ([], t) k e = cc
name_key-shorter (c ∷ s, t) k e =
    let f = ap (λ (k : KeyAndRest). left k.rest_of_path) (some-eq e) in omega (arith, f)

pub after_bracket-shorter : (t : List ℕ) → left (after_bracket t) ≤ length t + 1
after_bracket-shorter [] = omega arith
after_bracket-shorter (c ∷ t) = omega arith

index_key-shorter :
    (mods : Mods) (whole : List ℕ) (r : List ℕ × List ℕ) (k : KeyAndRest)
    → index_key mods whole r ≡ some k
    → left k.rest_of_path ≤ length r.0 + length r.1
unfolding index_key
index_key-shorter mods whole ([], t) k e = cc
index_key-shorter mods whole (c ∷ s, t) k e = ground (arith, after_bracket-shorter t)

pub parse_range-shorter :
    (mods : Mods) (tail path : List ℕ) (k : KeyAndRest)
    → parse_range mods tail path ≡ some k
    → left k.rest_of_path < length path
unfolding parse_range
parse_range-shorter mods tail [] k e = cc
parse_range-shorter mods tail (c ∷ []) k e = cc
parse_range-shorter mods tail (c ∷ d ∷ []) k e =
    ground
      (arith, name_key-shorter (find_if is_key_end (d ∷ [])) k, find_if-length is_key_end (d ∷ []))
parse_range-shorter mods tail (c ∷ d ∷ x ∷ s) k e = ground (
  arith,
  name_key-shorter (find_if is_key_end (d ∷ x ∷ s)) k,
  find_if-length is_key_end (d ∷ x ∷ s),
  index_key-shorter mods (d ∷ x ∷ s ++ tail) (find_if is_bracket (d ∷ x ∷ s)) k,
  find_if-length is_bracket (d ∷ x ∷ s),
)

-- A piece of a path: a name after a dot, or the text of an index in brackets.
pub data Segment : Type 0 where
  named : List ℕ → Segment
  indexed : List ℕ → ℤ → Segment

abbrev pub key_of : Segment → Key
key_of (named s) = string_key s
key_of (indexed t i) = int_key i

abbrev pub print_segment : Segment → List ℕ → List ℕ
print_segment (named s) rest = b'.' ∷ (s ++ rest)
print_segment (indexed t i) rest = b'[' ∷ (t ++ (b']' ∷ rest))

abbrev pub print_path : List Segment → List ℕ
print_path [] = []
print_path (g ∷ gs) = print_segment g (print_path gs)

-- A name is not empty and holds no dot or bracket; the text of an index holds no bracket, spells the
-- index and does not start like a form string.
abbrev pub IsWritable : Segment → Type 0
IsWritable (named s) = (0 < length s) × (none_pass is_key_end s ≡ true)
IsWritable (indexed t i) =
    (0 < length t)
    × (none_pass is_bracket t ≡ true)
    × (stoi t ≡ some i)
    × ((rest : List ℕ) → is_form_string (t ++ rest) ≡ false)

abbrev pub AreWritable : List Segment → Type 0
AreWritable [] = Unit
AreWritable (g ∷ gs) = IsWritable g × AreWritable gs

pub print_path-Stops : (gs : List Segment) → Stops is_key_end (print_path gs)
print_path-Stops [] = tt
print_path-Stops (named s ∷ gs) = refl
print_path-Stops (indexed t i ∷ gs) = refl

name_key-some :
    (s rest : List ℕ)
    → 0 < length s
    → name_key (s, rest) ≡ some (record { key = string_key s; rest_of_path = some rest })
unfolding name_key
name_key-some [] rest h = absurd (omega arith)
name_key-some (c ∷ s) rest h = refl

index_key-some :
    (mods : Mods) (t rest whole : List ℕ) (i : ℤ)
    → 0 < length t
    → stoi t ≡ some i
    → is_form_string whole ≡ false
    → index_key mods whole (t, b']' ∷ rest)
      ≡ some (record { key = int_key i; rest_of_path = some rest })
unfolding index_key
index_key-some mods [] rest whole i h e f = absurd (omega arith)
index_key-some mods (c ∷ t) rest whole i h e f = rw f (rw e refl)

parse_range-named :
    (mods : Mods) (tail s rest : List ℕ)
    → 0 < length s
    → none_pass is_key_end s ≡ true
    → Stops is_key_end rest
    → parse_range mods tail (b'.' ∷ (s ++ rest))
      ≡ some (record { key = string_key s; rest_of_path = some rest })
unfolding parse_range
parse_range-named mods tail [] rest h n k = absurd (omega arith)
parse_range-named mods tail (c ∷ s) rest h n k =
    rw (find_if-append is_key_end (c ∷ s) rest n k) (name_key-some (c ∷ s) rest h)

parse_range-indexed :
    (mods : Mods) (tail t rest : List ℕ) (i : ℤ)
    → 0 < length t
    → none_pass is_bracket t ≡ true
    → stoi t ≡ some i
    → ((more : List ℕ) → is_form_string (t ++ more) ≡ false)
    → parse_range mods tail (b'[' ∷ (t ++ (b']' ∷ rest)))
      ≡ some (record { key = int_key i; rest_of_path = some rest })
unfolding parse_range
parse_range-indexed mods tail [] rest i h n e f = absurd (omega arith)
parse_range-indexed mods tail (c ∷ []) rest i h n e f =
    let whole : is_form_string ((c ∷ b']' ∷ rest) ++ tail) ≡ false = f (b']' ∷ (rest ++ tail)) in
    rw (find_if-append is_bracket (c ∷ []) (b']' ∷ rest) n refl)
      (index_key-some mods (c ∷ []) rest ((c ∷ b']' ∷ rest) ++ tail) i h e whole)
parse_range-indexed mods tail (c ∷ d ∷ t) rest i h n e f =
    let whole : is_form_string (((c ∷ d ∷ t) ++ (b']' ∷ rest)) ++ tail) ≡ false =
      ap is_form_string (append_assoc (c ∷ d ∷ t) (b']' ∷ rest) tail) ∙ f (b']' ∷ (rest ++ tail)) in
    rw (find_if-append is_bracket (c ∷ d ∷ t) (b']' ∷ rest) n refl)
      (index_key-some mods (c ∷ d ∷ t) rest (((c ∷ d ∷ t) ++ (b']' ∷ rest)) ++ tail) i h e whole)

-- A written segment is read back, with what follows it.
pub parse_range-print_segment :
    (mods : Mods) (tail : List ℕ) (g : Segment) (gs : List Segment)
    → IsWritable g
    → parse_range mods tail (print_path (g ∷ gs))
      ≡ some (record { key = key_of g; rest_of_path = some (print_path gs) })
parse_range-print_segment mods tail (named s) gs w =
    parse_range-named mods tail s (print_path gs) w.0 w.1 (print_path-Stops gs)
parse_range-print_segment mods tail (indexed t i) gs w =
    parse_range-indexed mods tail t (print_path gs) i w.0 w.1 w.2 w.3
