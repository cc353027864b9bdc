-- ===== src/Json/Decimal.antt =====
-- The decimal texts of `json_serializer` are read back by `std::stoi`.
use jcontainers_ng.Common.{
  ℕ, zero, suc, ◌+◌, ◌-◌, ◌*◌, ◌/◌, ◌%◌, ◌<◌, ◌≡◌, refl, ap, ◌∙◌, Bool, true, false, ◌==◌, Option,
  some, List, [], ◌∷◌, arith, Bool-cases, inl, inr, ℤ, pos, negsuc,
}
use jcontainers_ng.Common.Numerals.{
  digit_value, is_digit, after_zero, read_digits, read_magnitude, skip_spaces, read_signed, to_int,
  stoi,
}
use jcontainers_ng.Paths.Segments.{none_pass}
use jcontainers_ng.Json.Keys.{print_decimal, print_int}

-- The range of an `int32_t`.
abbrev pub InRange : ℤ → Type 0
InRange (pos n) = n < 2147483648
InRange (negsuc n) = n < 2147483648

abbrev pow10 : ℕ → ℕ
pow10 zero = 1
pow10 (suc r) = 10 * pow10 r

digit_value-digit : (d : ℕ) → d < 10 → digit_value (b'0' + d) ≡ d
unfolding digit_value
digit_value-digit d h = ground arith

read_digits-cons :
    (d v : ℕ) (s : List ℕ)
    → d < 10
    → read_digits 10 ((b'0' + d) ∷ s) v ≡ read_digits 10 s (v * 10 + d)
unfolding read_digits
read_digits-cons d v s h =
    let e : is_digit 10 (b'0' + d) ≡ true = ground (arith, digit_value-digit d h) in
    rw e (rw (digit_value-digit d h) refl)

read_digits-print_decimal :
    (r n : ℕ) (s : List ℕ)
    → n < pow10 r
    → read_digits 10 (print_decimal r n s) 0 ≡ read_digits 10 s n
unfolding print_decimal
read_digits-print_decimal zero n s h = ap (read_digits 10 s) (omega arith)
read_digits-print_decimal (suc r) n s h = elim (Bool-cases (n / 10 == 0)) [
  | inl small ↦
      rw small (read_digits-cons (n % 10) 0 s (omega arith) ∙ ap (read_digits 10 s) (ground arith))
  | inr large ↦ rw large (
      read_digits-print_decimal r (n / 10) ((b'0' + n % 10) ∷ s) (omega arith)
      ∙ read_digits-cons (n % 10) (n / 10) s (omega arith)
      ∙ ap (read_digits 10 s) (omega arith))
]

-- A text that starts with a digit other than 0.
abbrev Starts : List ℕ → Type 0
Starts s = (d : ℕ) × (t : List ℕ) × (s ≡ (b'1' + d) ∷ t) × (d < 9)

print_decimal-Starts : (r n : ℕ) (s : List ℕ) → 0 < n → n < pow10 r → Starts (print_decimal r n s)
unfolding print_decimal
print_decimal-Starts zero n s p h = absurd (omega arith)
print_decimal-Starts (suc r) n s p h = elim (Bool-cases (n / 10 == 0)) [
  | inl small ↦
      let e : b'0' + n % 10 ≡ b'1' + (n % 10 - 1) = ground arith in
      rw small (n % 10 - 1, s, ap (λ x. x ∷ s) e, ground arith)
  | inr large ↦
      rw large (print_decimal-Starts r (n / 10) ((b'0' + n % 10) ∷ s) (ground arith) (omega arith))
]

read_magnitude-Starts : (s : List ℕ) → Starts s → read_magnitude s ≡ some (read_digits 10 s 0)
unfolding read_magnitude digit_value
read_magnitude-Starts s (d, t, e, h) = rw e (ground arith)

read_signed-Starts :
    (s : List ℕ) → Starts s → read_signed (skip_spaces s) ≡ (false, read_magnitude s)
unfolding read_signed skip_spaces
read_signed-Starts s (d, t, e, h) = rw e (ground arith)

read_digits-nil : (n : ℕ) → read_digits 10 [] n ≡ n
unfolding read_digits
read_digits-nil n = refl

module _ (n : ℕ) (p : 0 < n) (h : n < 10000000000) where
  starts : Starts (print_decimal 10 n [])
  starts = print_decimal-Starts 10 n [] p (omega arith)

  read_magnitude-print_decimal : read_magnitude (print_decimal 10 n []) ≡ some n
  read_magnitude-print_decimal =
      read_magnitude-Starts (print_decimal 10 n []) starts
      ∙ ap some (read_digits-print_decimal 10 n [] (omega arith) ∙ read_digits-nil n)

stoi-read :
    (s : List ℕ) (negative : Bool) (n : ℕ)
    → read_signed (skip_spaces s) ≡ (negative, some n)
    → stoi s ≡ to_int negative n
unfolding stoi
stoi-read s negative n e = rw (e, stoi) (ap (λ (r : Bool × Option ℕ). to_int r.0 n) e)

stoi-zero : stoi (print_int (pos 0)) ≡ some (pos 0)
unfolding stoi print_int print_decimal skip_spaces read_signed read_magnitude after_zero to_int
stoi-zero = refl

read_signed-minus : (s : List ℕ) → read_signed (skip_spaces (b'-' ∷ s)) ≡ (true, read_magnitude s)
unfolding read_signed skip_spaces
read_signed-minus s = refl

to_int_range : (n : ℕ) → n < 2147483648 → to_int true (suc n) ≡ some (negsuc n)
unfolding to_int
to_int_range n h = ground arith

to_int_pos : (n : ℕ) → suc n < 2147483648 → to_int false (suc n) ≡ some (pos (suc n))
unfolding to_int
to_int_pos n h = ground arith

-- What is printed for an integer is read back.
pub stoi-print_int : (i : ℤ) → InRange i → stoi (print_int i) ≡ some i
unfolding print_int
stoi-print_int (pos zero) h = stoi-zero
stoi-print_int (pos (suc n)) h =
    let text = print_decimal 10 (suc n) [] in
    let value = read_magnitude-print_decimal (suc n) (omega arith) (omega arith) in
    stoi-read text false (suc n)
      (read_signed-Starts text (starts (suc n) (omega arith) (omega arith)) ∙ rw value refl)
    ∙ to_int_pos n h
stoi-print_int (negsuc n) h =
    let same : n + 1 ≡ suc n = omega arith in
    let text = print_decimal 10 (n + 1) [] in
    let value = read_magnitude-print_decimal (n + 1) (omega arith) (omega arith) in
    stoi-read (b'-' ∷ text) true (suc n) (read_signed-minus text ∙ rw value (rw same refl))
    ∙ to_int_range n h

-- Every digit, and so every byte of the text but a minus.
print_decimal-none_pass :
    (test : ℕ → Bool) (r n : ℕ) (s : List ℕ)
    → ((d : ℕ) → d < 10 → test (b'0' + d) ≡ false)
    → none_pass test s ≡ true
    → none_pass test (print_decimal r n s) ≡ true
unfolding print_decimal none_pass
print_decimal-none_pass test zero n s t h = h
print_decimal-none_pass test (suc r) n s t h =
    let here : none_pass test ((b'0' + n % 10) ∷ s) ≡ true =
      ground (arith, t (n % 10) (omega arith)) in
    elim (Bool-cases (n / 10 == 0)) [
      | inl small ↦ rw small here
      | inr large ↦ rw large (print_decimal-none_pass test r (n / 10) ((b'0' + n % 10) ∷ s) t here)
    ]

pub print_int-none_pass :
    (test : ℕ → Bool) (i : ℤ)
    → ((d : ℕ) → d < 10 → test (b'0' + d) ≡ false)
    → test b'-' ≡ false
    → none_pass test (print_int i) ≡ true
unfolding print_int none_pass
print_int-none_pass test (pos n) t m = print_decimal-none_pass test 10 n [] t refl
print_int-none_pass test (negsuc n) t m = rw m (print_decimal-none_pass test 10 (n + 1) [] t refl)

-- The first byte is a digit or a minus.
pub print_int_head :
    (i : ℤ) → InRange i → (c : ℕ) × (t : List ℕ) × (print_int i ≡ c ∷ t) × (c < b'_')
unfolding print_int
print_int_head (pos zero) h = (b'0', [], unfold print_decimal in refl, omega arith)
print_int_head (pos (suc n)) h =
    let (d, t, e, b) = starts (suc n) (omega arith) (omega arith) in
    (b'1' + d, t, e, omega (arith, b))
print_int_head (negsuc n) h = (b'-', print_decimal 10 (n + 1) [], refl, omega arith)
