-- ===== src/Paths/Parse.antt =====
-- `parse_path` of collections/access.cpp. A range of the path's bytes that starts past its end, which
-- an index without its bracket leaves, is `none`; to read from such a range is a fault.
use jcontainers_ng.Common.{
  ℕ, Bool, false, ◌||◌, ◌==◌, if◌then◌else◌, Option, none, some, List, [], ◌∷◌, ◌++◌, take, drop,
}
use jcontainers_ng.Common.Numerals.{stoi}
use jcontainers_ng.Index.{Exec, done, fault}
use jcontainers_ng.Item.{FormRef}
use jcontainers_ng.Item.Text.{c_str}
use jcontainers_ng.Forms.Strings.{Mods, is_form_string, string_to_form}
use jcontainers_ng.Paths.{Key, int_key, string_key, form_key}

pub record KeyAndRest : Type 0 where
  pub key : Key
  pub rest_of_path : Option (List ℕ)

-- The bytes before the first that passes the test, and those from there on.
unfoldable pub find_if : (ℕ → Bool) → List ℕ → List ℕ × List ℕ
find_if test [] = ([], [])
find_if test (c ∷ s) = let r = find_if test s in if test c then ([], c ∷ s) else (c ∷ r.0, r.1)

abbrev pub is_key_end : ℕ → Bool
is_key_end c = c == b'.' || c == b'['

abbrev pub is_bracket : ℕ → Bool
is_bracket c = c == b']'

-- `mapRule`, after the dot.
unfoldable pub name_key : List ℕ × List ℕ → Option KeyAndRest
name_key ([], rest) = none
name_key (c ∷ s, rest) = some (record { key = string_key (c ∷ s); rest_of_path = some rest })

-- `cstring(end + 1, path.end())`
abbrev pub after_bracket : List ℕ → Option (List ℕ)
after_bracket [] = none
after_bracket (c ∷ rest) = some rest

-- `make_weak_form_id`: the observer answers an entry that is not deleted, and none for 0.
abbrev pub make_weak_form_id : ℕ → FormRef
make_weak_form_id id = if id == 0 then none else some (record { form_id = id; is_deleted = false })

module _ (mods : Mods) where
  -- `arrayRule`, after the bracket; `whole` is what follows it up to the zero byte, past the range.
  unfoldable pub index_key : List ℕ → List ℕ × List ℕ → Option KeyAndRest
  index_key whole ([], rest) = none
  index_key whole (c ∷ s, rest) =
      if is_form_string whole
      then (elim (string_to_form mods whole) [
        | none ↦ none
        | some id ↦
            some
              (record { key = form_key (make_weak_form_id id); rest_of_path = after_bracket rest })
      ])
      else (elim (stoi (c ∷ s)) [
        | none ↦ none
        | some i ↦ some (record { key = int_key i; rest_of_path = after_bracket rest })
      ])

  -- The rules on a range; `tail` is what follows it up to the zero byte. A path of one byte is
  -- refused, and so is a bracket with one byte after it.
  unfoldable pub parse_range : List ℕ → List ℕ → Option KeyAndRest
  parse_range tail [] = none
  parse_range tail (c ∷ []) = none
  parse_range tail (c ∷ d ∷ s) =
      if c == b'['
      then (elim s [
        | [] ↦ none
        | e ∷ s' ↦ index_key (d ∷ e ∷ s' ++ tail) (find_if is_bracket (d ∷ e ∷ s'))
      ])
      else if c == b'.'
      then name_key (find_if is_key_end (d ∷ s))
      else none

  unfoldable pub parse_path : List ℕ → Option (List ℕ) → Exec (Option KeyAndRest)
  parse_path tail none = fault
  parse_path tail (some path) = done (parse_range tail path)

-- `string_path_length_max`
abbrev pub string_path_length_max : ℕ
string_path_length_max = 1024

-- `make_cstring_safe`: a null pointer is an empty path.
unfoldable pub make_cstring_safe : Option (List ℕ) → List ℕ
make_cstring_safe none = []
make_cstring_safe (some cpath) = take string_path_length_max (c_str cpath)

unfoldable pub after_cstring : Option (List ℕ) → List ℕ
after_cstring none = []
after_cstring (some cpath) = drop string_path_length_max (c_str cpath)
