-- ===== src/Forms/Strings.antt =====
-- src/JContainers/src/forms/form_handling.h: form strings, `__formData|<mod>|<identifier>`. The
-- game's tables of loaded mods are the parameter `Mods`; a text is its bytes.
use jcontainers_ng.Common.{
  ℕ, zero, suc, ◌+◌, ◌-◌, ◌/◌, ◌%◌, Bool, true, false, ◌==◌, if◌then◌else◌, ltb, Option, none, some,
  List, [], ◌∷◌, ◌++◌,
}
use jcontainers_ng.Common.Numerals.{stoul}
use jcontainers_ng.Forms.{is_static, is_light}

-- What the game knows of its mods: skse/jc_skse.h.
pub record Mods : Type 0 where
  pub loaded_mod_name : ℕ → Option (List ℕ)
  pub loaded_light_mod_name : ℕ → Option (List ℕ)
  pub mod_form_from_file : List ℕ → ℕ → Option ℕ

-- "__formData|"
abbrev pub prefix : List ℕ
prefix = b'_' ∷ b'_' ∷ b'f' ∷ b'o' ∷ b'r' ∷ b'm' ∷ b'D' ∷ b'a' ∷ b't' ∷ b'a' ∷ b'|' ∷ []

-- What follows a prefix, if the text has it.
unfoldable pub strip_prefix : List ℕ → List ℕ → Option (List ℕ)
strip_prefix [] s = some s
strip_prefix (p ∷ ps) [] = none
strip_prefix (p ∷ ps) (c ∷ s) = let rest = strip_prefix ps s in if p == c then rest else none

unfoldable pub is_form_string : List ℕ → Bool
is_form_string p = elim (strip_prefix prefix p) [ none ↦ false | some _ ↦ true ]

abbrev pub before_bar : ℕ → Option (List ℕ × List ℕ) → Option (List ℕ × List ℕ)
before_bar c none = none
before_bar c (some r) = some (c ∷ r.0, r.1)

-- The texts before and after the first bar.
unfoldable pub split_bar : List ℕ → Option (List ℕ × List ℕ)
split_bar [] = none
split_bar (c ∷ s) =
    let rest = before_bar c (split_bar s) in if c == b'|' then some ([], s) else rest

-- A lower-case digit of `%x`.
abbrev pub hex_digit : ℕ → ℕ
hex_digit d = if ltb d 10 then b'0' + d else b'a' + (d - 10)

-- The digits of `%x` in front of `s`, with as many rounds as the word has digits.
unfoldable pub print_hex : ℕ → ℕ → List ℕ → List ℕ
print_hex zero n s = s
print_hex (suc rounds) n s =
    let rest = print_hex rounds (n / 16) (hex_digit (n % 16) ∷ s) in
    if n / 16 == 0 then hex_digit (n % 16) ∷ s else rest

module _ (mods : Mods) where
  open mods use {loaded_mod_name, loaded_light_mod_name, mod_form_from_file}

  -- An empty name is that of the forms that the game makes; their two top digits are set.
  unfoldable pub form_from_file : List ℕ → ℕ → Option ℕ
  form_from_file [] form = some (4278190080 + form % 16777216)
  form_from_file (c ∷ file) form = mod_form_from_file (c ∷ file) form

  unfoldable pub string_to_form : List ℕ → Option ℕ
  string_to_form str = elim (strip_prefix prefix str) [
    | none ↦ none
    | some s ↦ elim (split_bar s) [
      | none ↦ none
      | some r ↦ elim (stoul r.1) [ none ↦ none | some form ↦ form_from_file r.0 form ]
    ]
  ]

  -- The name of the mod that a form is from, and the identifier that is printed.
  unfoldable pub form_origin : ℕ → Option (List ℕ × ℕ)
  form_origin n =
      if is_static n
      then (if is_light n
          then (elim (loaded_light_mod_name (n / 4096 % 4096)) [
            | none ↦ none
            | some mod_name ↦ some (mod_name, n % 4096)
          ])
          else (elim (loaded_mod_name (n / 16777216)) [
            | none ↦ none
            | some mod_name ↦ some (mod_name, n % 16777216)
          ]))
      else some ([], n)

  unfoldable pub form_to_string : ℕ → Option (List ℕ)
  form_to_string n = elim (form_origin n) [
    | none ↦ none
    | some r ↦ some (prefix ++ (r.0 ++ (b'|' ∷ b'0' ∷ b'x' ∷ print_hex 8 r.1 [])))
  ]
