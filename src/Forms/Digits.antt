-- ===== src/Forms/Digits.antt =====
-- The pieces of a form string: its prefix, its bar and its hexadecimal digits, printed and read.
use jcontainers_ng.Common.{
  ℕ, zero, suc, ◌+◌, ◌*◌, ◌/◌, ◌%◌, ◌<◌, ◌≡◌, refl, ap, ◌∙◌, Bool, true, not, ◌&&◌, ◌==◌, some,
  List, [], ◌∷◌, ◌++◌, arith, Bool-cases, inl, inr,
}
use jcontainers_ng.Common.Numerals.{
  digit_value, is_digit, read_digits, after_zero, read_magnitude, skip_spaces, read_signed, stoul,
}
use jcontainers_ng.Forms.Strings.{strip_prefix, split_bar, hex_digit, print_hex}

abbrev pow16 : ℕ → ℕ
pow16 zero = 1
pow16 (suc r) = 16 * pow16 r

digit_value-hex_digit : (d : ℕ) → d < 16 → digit_value (hex_digit d) ≡ d
unfolding digit_value
digit_value-hex_digit d h = ground arith

is_digit-hex_digit : (d : ℕ) → d < 16 → is_digit 16 (hex_digit d) ≡ true
is_digit-hex_digit d h = ground (arith, digit_value-hex_digit d h)

read_digits-cons :
    (d v : ℕ) (s : List ℕ)
    → d < 16
    → read_digits 16 (hex_digit d ∷ s) v ≡ read_digits 16 s (v * 16 + d)
unfolding read_digits
read_digits-cons d v s h = rw (is_digit-hex_digit d h) (rw (digit_value-hex_digit d h) refl)

-- Reading what was printed goes on with the number that was printed.
read_digits-print_hex :
    (r n : ℕ) (s : List ℕ) → n < pow16 r → read_digits 16 (print_hex r n s) 0 ≡ read_digits 16 s n
unfolding print_hex
read_digits-print_hex zero n s h = ap (read_digits 16 s) (omega arith)
read_digits-print_hex (suc r) n s h = elim (Bool-cases (n / 16 == 0)) [
  | inl small ↦
      rw small (read_digits-cons (n % 16) 0 s (omega arith) ∙ ap (read_digits 16 s) (ground arith))
  | inr large ↦ rw large (
      read_digits-print_hex r (n / 16) (hex_digit (n % 16) ∷ s) (omega arith)
      ∙ read_digits-cons (n % 16) (n / 16) s (omega arith)
      ∙ ap (read_digits 16 s) (omega arith))
]

-- A text that starts with a digit.
abbrev Starts : List ℕ → Type 0
Starts s = (h : ℕ) × (t : List ℕ) × (s ≡ h ∷ t) × (is_digit 16 h ≡ true)

print_hex-Starts : (r n : ℕ) (s : List ℕ) → Starts s → Starts (print_hex r n s)
unfolding print_hex
print_hex-Starts zero n s h = h
print_hex-Starts (suc r) n s h =
    let here : Starts (hex_digit (n % 16) ∷ s) =
      (hex_digit (n % 16), s, refl, is_digit-hex_digit (n % 16) (omega arith)) in
    elim (Bool-cases (n / 16 == 0)) [
      | inl small ↦ rw small here
      | inr large ↦ rw large (print_hex-Starts r (n / 16) (hex_digit (n % 16) ∷ s) here)
    ]

print_hex-suc-Starts : (r n : ℕ) → Starts (print_hex (suc r) n [])
unfolding print_hex
print_hex-suc-Starts r n =
    let here : Starts (hex_digit (n % 16) ∷ []) =
      (hex_digit (n % 16), [], refl, is_digit-hex_digit (n % 16) (omega arith)) in
    elim (Bool-cases (n / 16 == 0)) [
      | inl small ↦ rw small here
      | inr large ↦ rw large (print_hex-Starts r (n / 16) (hex_digit (n % 16) ∷ []) here)
    ]

after_zero-Starts : (s : List ℕ) → Starts s → after_zero (b'x' ∷ s) ≡ read_digits 16 s 0
unfolding after_zero
after_zero-Starts s (h, t, e, d) = rw e (rw d refl)

-- The identifier that follows `0x` is read back.
pub stoul-print_hex : (n : ℕ) → n < 4294967296 → stoul (b'0' ∷ b'x' ∷ print_hex 8 n []) ≡ some n
unfolding stoul skip_spaces read_signed read_magnitude
stoul-print_hex n h =
    let e : after_zero (b'x' ∷ print_hex 8 n []) ≡ n =
      after_zero-Starts (print_hex 8 n []) (print_hex-suc-Starts 7 n)
      ∙ read_digits-print_hex 8 n [] (omega arith)
      ∙ nil n in
    rw e (ground arith)
  where
    nil : (n : ℕ) → read_digits 16 [] n ≡ n
    nil n = unfold read_digits in refl

pub strip_prefix-append : (p s : List ℕ) → strip_prefix p (p ++ s) ≡ some s
unfolding strip_prefix
strip_prefix-append [] s = refl
strip_prefix-append (c ∷ p) s = ground (arith, strip_prefix-append p s)

-- A text without a bar.
unfoldable pub has_no_bar : List ℕ → Bool
has_no_bar [] = true
has_no_bar (c ∷ s) = not (c == b'|') && has_no_bar s

pub split_bar-append :
    (s t : List ℕ) → has_no_bar s ≡ true → split_bar (s ++ (b'|' ∷ t)) ≡ some (s, t)
unfolding split_bar has_no_bar
split_bar-append [] t h = refl
split_bar-append (c ∷ s) t h = ground (arith, split_bar-append s t)
