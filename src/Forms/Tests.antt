-- ===== src/Forms/Tests.antt =====
-- Runs of the functions of forms/form_handling.h on concrete forms.
use jcontainers_ng.Common.{
  ℕ, ◌+◌, ◌%◌, ◌==◌, ◌≡◌, refl, Bool, true, none, some, List, [], ◌∷◌, if◌then◌else◌,
}
use jcontainers_ng.Forms.{is_form_handle, form_handle_to_id, is_static, is_light}
use jcontainers_ng.Forms.Strings.{Mods}
use jcontainers_ng.Forms.Observer.{Observer, no_forms, watch_form}

-- 0xfe001804.
light_run : is_light 4261419012 ≡ true
unfolding is_light
light_run = refl

-- A game with one light mod, "A.esl", at index 1.
abbrev mod_name : List ℕ
mod_name = b'A' ∷ b'.' ∷ b'e' ∷ b's' ∷ b'l' ∷ []

abbrev one_mod : Mods
one_mod = record {
  loaded_mod_name = λ n. none;
  loaded_light_mod_name = λ n. if n == 1 then some mod_name else none;
  mod_form_from_file = λ file form. some (4261416960 + form % 4096);
}

-- Every form can be retained.
abbrev retains : ℕ → Bool
retains handle = true

-- An observer of the forms 20 and 21.
abbrev two_forms : Observer
two_forms = (watch_form retains (watch_form retains no_forms 20).1 21).1
