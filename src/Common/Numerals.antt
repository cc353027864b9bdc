-- ===== src/Common/Numerals.antt =====
-- `std::stoi` and `std::stoul` with base 0, on the bytes of a text: blanks, a sign, a prefix that
-- tells the base, and the digits up to the first byte that is none. `none` is an exception. A
-- `long` has 32 bits.
use Prim.Native.Nat.{ℕ, zero, suc, ◌+◌, ◌-◌, ◌*◌, ◌%◌}
use mathlib.Core.Bool.{Bool, true, false, ◌&&◌, ◌||◌}
use mathlib.Core.List.{List, [], ◌∷◌}
use mathlib.Core.Option.{Option, none, some}
use jcontainers_ng.Common.Tests.{ltb, leb, ◌==◌, if◌then◌else◌}
use jcontainers_ng.Common.Int.{ℤ, pos, negsuc}

-- The value of a digit, and 16 for another byte.
unfoldable pub digit_value : ℕ → ℕ
digit_value c =
    if leb b'0' c && leb c b'9'
    then c - b'0'
    else if leb b'a' c && leb c b'f'
    then c - b'a' + 10
    else if leb b'A' c && leb c b'F'
    then c - b'A' + 10
    else 16

abbrev pub is_digit : ℕ → ℕ → Bool
is_digit base c = ltb (digit_value c) base

unfoldable pub read_digits : ℕ → List ℕ → ℕ → ℕ
read_digits base [] value = value
read_digits base (c ∷ s) value =
    let rest = read_digits base s (value * base + digit_value c) in
    if is_digit base c then rest else value

unfoldable pub after_zero : List ℕ → ℕ
after_zero [] = 0
after_zero (x ∷ []) = read_digits 8 (x ∷ []) 0
after_zero (x ∷ h ∷ s) =
    if (x == b'x' || x == b'X') && is_digit 16 h
    then read_digits 16 (h ∷ s) 0
    else read_digits 8 (x ∷ h ∷ s) 0

unfoldable pub read_magnitude : List ℕ → Option ℕ
read_magnitude [] = none
read_magnitude (c ∷ s) =
    if c == b'0'
    then some (after_zero s)
    else if is_digit 10 c
    then some (read_digits 10 (c ∷ s) 0)
    else none

abbrev pub is_space : ℕ → Bool
is_space c = c == 32 || (leb 9 c && leb c 13)

unfoldable pub skip_spaces : List ℕ → List ℕ
skip_spaces [] = []
skip_spaces (c ∷ s) = let rest = skip_spaces s in if is_space c then rest else c ∷ s

-- Whether a minus stands in front, and the magnitude.
unfoldable pub read_signed : List ℕ → Bool × Option ℕ
read_signed [] = (false, none)
read_signed (c ∷ s) =
    if c == b'-'
    then (true, read_magnitude s)
    else if c == b'+'
    then (false, read_magnitude s)
    else (false, read_magnitude (c ∷ s))

unfoldable pub to_int : Bool → ℕ → Option ℤ
to_int negative zero = some (pos zero)
to_int negative (suc n) =
    if negative
    then (if ltb n 2147483648 then some (negsuc n) else none)
    else (if ltb (suc n) 2147483648 then some (pos (suc n)) else none)

unfoldable pub stoi : List ℕ → Option ℤ
stoi s = let r = read_signed (skip_spaces s) in elim r.1 [ none ↦ none | some n ↦ to_int r.0 n ]

unfoldable pub stoul : List ℕ → Option ℕ
stoul s =
    let r = read_signed (skip_spaces s) in
    elim r.1 [
      | none ↦ none
      | some n ↦
          if ltb n 4294967296 then some (if r.0 then (4294967296 - n) % 4294967296 else n) else none
    ]
