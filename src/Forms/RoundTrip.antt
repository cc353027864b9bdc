-- ===== src/Forms/RoundTrip.antt =====
-- `form_to_string` and `string_to_form` of forms/form_handling.h, one after the other.
use jcontainers_ng.Common.{
  ℕ, ◌+◌, ◌*◌, ◌/◌, ◌%◌, ◌<◌, ◌≡◌, false, true, ◌==◌, some, List, [], ◌∷◌, ◌++◌, Option, length,
  if◌then◌else◌,
}
use jcontainers_ng.Forms.Strings.{Mods, prefix, print_hex}
use jcontainers_ng.Forms.Digits.{has_no_bar}

-- What Game.GetFormFromFile documents, for the loaded mods: a mod is found by its file name, which is
-- not empty and has no bar, and the bits of the identifier in the place of the mod are ignored.
pub record IsGame (mods : Mods) : Type 0 where
  pub mod_file :
      (index : ℕ) (name : List ℕ)
      → mods.loaded_mod_name index ≡ some name
      → (0 < length name) × (has_no_bar name ≡ true)
  pub light_mod_file :
      (index : ℕ) (name : List ℕ)
      → mods.loaded_light_mod_name index ≡ some name
      → (0 < length name) × (has_no_bar name ≡ true)
  pub from_mod :
      (index : ℕ) (name : List ℕ) (form : ℕ)
      → mods.loaded_mod_name index ≡ some name
      → mods.mod_form_from_file name form ≡ some (index * 16777216 + form % 16777216)
  pub from_light_mod :
      (index : ℕ) (name : List ℕ) (form : ℕ)
      → mods.loaded_light_mod_name index ≡ some name
      → mods.mod_form_from_file name form ≡ some (254 * 16777216 + index * 4096 + form % 4096)

-- The file that an identifier's bits name: none for the forms that the game makes, a light mod, or
-- another mod.
abbrev pub file_of : Mods → ℕ → Option (List ℕ)
file_of mods n =
    if n / 16777216 == 255
    then some []
    else if n / 16777216 == 254
    then mods.loaded_light_mod_name (n / 4096 % 4096)
    else mods.loaded_mod_name (n / 16777216)

-- How many identifiers one file has.
abbrev pub forms_of_file : ℕ → ℕ
forms_of_file n = if n / 16777216 == 254 then 4096 else 16777216

-- The string that names a file and an identifier in it.
abbrev pub form_string : List ℕ → ℕ → List ℕ
form_string name local = prefix ++ (name ++ (b'|' ∷ b'0' ∷ b'x' ∷ print_hex 8 local []))

-- The three kinds of identifiers.
data Kind (mods : Mods) (n : ℕ) (name : List ℕ) : Type 0 where
  made : (n / 16777216 == 255) ≡ true → name ≡ [] → Kind mods n name
  light :
      (n / 16777216 == 255) ≡ false
      → (n / 16777216 == 254) ≡ true
      → mods.loaded_light_mod_name (n / 4096 % 4096) ≡ some name
      → Kind mods n name
  regular :
      (n / 16777216 == 255) ≡ false
      → (n / 16777216 == 254) ≡ false
      → mods.loaded_mod_name (n / 16777216) ≡ some name
      → Kind mods n name
