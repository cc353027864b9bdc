-- ===== src/Paths/Tests.antt =====
-- Runs of the functions of collections/access.h on a store of two maps.
use jcontainers_ng.Common.{
  ℕ, zero, suc, ◌+◌, ◌≡◌, ◌≢◌, ◌≤◌, refl, Bool, true, false, Option, none, some, List, [], ◌∷◌,
  ◌==◌, if◌then◌else◌, arith, pos, ℤ, negsuc, ltb, ◌++◌,
}
use jcontainers_ng.Index.{done, fault}
use jcontainers_ng.Common.Numerals.{stoi}
use jcontainers_ng.Paths.Parse.{is_bracket}
use jcontainers_ng.Item.{Reals, Item, blank, integer, object}
use jcontainers_ng.Item.Operators.{fold_items, max_int}
use jcontainers_ng.Paths.Resolve.{resolve, find_operator, operators}
use jcontainers_ng.Paths.Solve.{resolve-get}
use jcontainers_ng.Paths.Missing.{resolve-missing}
use jcontainers_ng.Paths.Fold.{resolve-operator}
use jcontainers_ng.Paths.Finish.{resolve-Ends}
use jcontainers_ng.Forms.Strings.{Mods, is_form_string}
use jcontainers_ng.Paths.{
  Store, Container, map, array, string_key, int_key, name_lt, write, u_access_value,
}
use jcontainers_ng.Paths.Access.{creative, constant, access_by, access_constant, get, assign}
use jcontainers_ng.Paths.Segments.{named, indexed, print_path, none_pass, AreWritable}
use jcontainers_ng.Paths.Walk.{Ends, walk_value}
use jcontainers_ng.Paths.Constant.{get-walk, get-unclosed}
use jcontainers_ng.Paths.Create.{assign-creative, named_all}

abbrev no_mods : Mods
no_mods = record {
  loaded_mod_name = λ n. none;
  loaded_light_mod_name = λ n. none;
  mod_form_from_file = λ file form. none;
}

-- "a", "b" and "c".
abbrev name_a : List ℕ
name_a = b'a' ∷ []

abbrev name_b : List ℕ
name_b = b'b' ∷ []

abbrev name_c : List ℕ
name_c = b'c' ∷ []

-- The map at 0 has the map at 1 under "a", which has 7 under "b".
abbrev two_maps : Store ℕ
two_maps = record {
  objects = λ a.
      if a == 0 then map ((name_a, object (some 1)) ∷ []) else map ((name_b, integer (pos 7)) ∷ []);
  next_address = 2;
}

abbrev path_ab : List ℕ
path_ab = print_path (named name_a ∷ named name_b ∷ [])

get-walk_example :
    get no_mods two_maps 0 (some path_ab)
    ≡ done (some (walk_value two_maps 0 (named name_a) (named name_b ∷ [])))
get-walk_example =
    get-walk no_mods two_maps 0 (named name_a) (named name_b ∷ [])
      ((omega arith, unfold none_pass in refl), ((omega arith, unfold none_pass in refl), tt))
      (unfold none_pass in refl) (omega arith)

value_run : walk_value two_maps 0 (named name_a) (named name_b ∷ []) ≡ some (integer (pos 7))
unfolding walk_value jcontainers_ng.Paths.Walk.walk u_access_value jcontainers_ng.Maps.u_get
    jcontainers_ng.Item.Text.stricmp_lt
value_run = refl

found_run :
    access_constant no_mods two_maps 0 (some path_ab)
    ≡ done (some (some (record { collection = 1; key = string_key name_b }), two_maps))
unfolding access_constant jcontainers_ng.Paths.Access.retrieve jcontainers_ng.Paths.Parse.parse_path
    jcontainers_ng.Paths.Access.constant_access jcontainers_ng.Paths.Parse.parse_range
    jcontainers_ng.Paths.Parse.make_cstring_safe jcontainers_ng.Paths.Parse.name_key
    jcontainers_ng.Paths.Parse.find_if u_access_value jcontainers_ng.Maps.u_get
    jcontainers_ng.Item.Text.stricmp_lt jcontainers_ng.Paths.Access.recurs
found_run = refl

item_run : u_access_value (two_maps.objects 1) (string_key name_b) ≡ some (integer (pos 7))
unfolding u_access_value jcontainers_ng.Maps.u_get jcontainers_ng.Item.Text.stricmp_lt
item_run = refl

-- ".c.b", where "c" is missing.
abbrev path_cb : List ℕ
path_cb = print_path (named_all (name_c ∷ name_b ∷ []))

writable_run : AreWritable (named_all (name_c ∷ name_b ∷ []))
unfolding none_pass
writable_run = ((omega arith, refl), ((omega arith, refl), tt))

no_zero_run : none_pass (λ c. c == 0) path_cb ≡ true
unfolding none_pass
no_zero_run = refl

missing_run :
    jcontainers_ng.Maps.u_get {V = Item ℕ} name_lt ((name_a, object (some 1)) ∷ []) name_c ≡ none
unfolding jcontainers_ng.Maps.u_get jcontainers_ng.Item.Text.stricmp_lt
missing_run = refl

assign-creative_example :
    (s' : Store ℕ) × (assign no_mods two_maps 0 (some path_cb) (integer (pos 8)) creative
      ≡ done (some (true, s')))
    × (get no_mods s' 0 (some path_cb) ≡ done (some (some (integer (pos 8)))))
    × (s'.objects 1 ≡ two_maps.objects 1)
assign-creative_example =
    assign-creative no_mods two_maps 0 ((name_a, object (some 1)) ∷ []) name_c (name_b ∷ [])
      (integer (pos 8)) 1 writable_run no_zero_run (omega arith) refl missing_run (omega arith)
      (omega arith) (omega arith)

-- The array at 0 has an object at index 0.
abbrev one_array : Store ℕ
one_array = record { objects = λ a. array (object (some 1) ∷ []); next_address = 2 }

abbrev zeros : List ℕ
zeros = b'0' ∷ b'0' ∷ []

zeros_run :
    (none_pass is_bracket zeros ≡ true)
    × (stoi zeros ≡ some (pos 0))
    × (is_form_string zeros ≡ false)
    × (none_pass (λ c. c == 0) (b'[' ∷ zeros) ≡ true)
unfolding none_pass stoi jcontainers_ng.Common.Numerals.skip_spaces
    jcontainers_ng.Common.Numerals.read_signed jcontainers_ng.Common.Numerals.read_magnitude
    jcontainers_ng.Common.Numerals.read_digits jcontainers_ng.Common.Numerals.after_zero
    jcontainers_ng.Common.Numerals.digit_value is_form_string
    jcontainers_ng.Forms.Strings.strip_prefix jcontainers_ng.Common.Numerals.to_int
zeros_run = (refl, refl, refl, refl)

element_run : u_access_value (one_array.objects 0) (int_key (pos 0)) ≡ some (object (some 1))
unfolding u_access_value jcontainers_ng.Array.u_get jcontainers_ng.Array.u_convert_index
element_run = refl

get-unclosed_example : get no_mods one_array 0 (some (b'[' ∷ zeros)) ≡ fault
get-unclosed_example =
    get-unclosed no_mods one_array 0 zeros (pos 0) (object (some 1)) 1 (omega arith) zeros_run.0
      zeros_run.1 zeros_run.2 zeros_run.3 (omega arith) element_run refl

-- Whole numbers in place of the floats.
abbrev pos_part : ℤ → ℕ
pos_part (pos n) = n
pos_part (negsuc n) = 0

abbrev whole : Reals
whole = record {
  Real = ℕ;
  from_int = pos_part;
  to_int = pos;
  real_lt = ltb;
  real_eq = λ a b. a == b;
}

resolve-get_example :
    (v : Option (Item ℕ)) × (resolve whole no_mods two_maps (some 0) (some path_cb)
      ≡ done (some (v ∷ [])))
    × (get no_mods two_maps 0 (some path_cb) ≡ done (some v))
resolve-get_example =
    resolve-get whole no_mods two_maps 0 name_c (name_b ∷ []) writable_run no_zero_run (omega arith)

-- ".c[00]", where "c" is missing.
abbrev path_c0 : List ℕ
path_c0 = print_path (named name_c ∷ indexed zeros (pos 0) ∷ [])

no_form_run : (rest : List ℕ) → is_form_string (zeros ++ rest) ≡ false
unfolding is_form_string jcontainers_ng.Forms.Strings.strip_prefix
no_form_run rest = refl

c0_run :
    AreWritable (named name_c ∷ indexed zeros (pos 0) ∷ [])
    × (none_pass (λ c. c == 0) path_c0 ≡ true)
unfolding none_pass
c0_run = (((omega arith, refl), ((omega arith, refl, zeros_run.1, no_form_run), tt)), refl)

resolve-missing_example : resolve whole no_mods two_maps (some 0) (some path_c0) ≡ fault
resolve-missing_example =
    resolve-missing whole no_mods two_maps 0 ((name_a, object (some 1)) ∷ []) name_c zeros (pos 0)
      [] c0_run.0 c0_run.1 (omega arith) refl missing_run

-- "maxInt"
abbrev max_int_name : List ℕ
max_int_name = b'm' ∷ b'a' ∷ b'x' ∷ b'I' ∷ b'n' ∷ b't' ∷ []

abbrev two_numbers : List (Item ℕ)
two_numbers = integer (pos 4) ∷ integer (pos 9) ∷ []

abbrev numbers : Store ℕ
numbers = record { objects = λ a. array two_numbers; next_address = 1 }

operator_run :
    (none_pass (λ b. b == b'.') max_int_name ≡ true)
    × (none_pass (λ c. c == 0) (b'@' ∷ max_int_name) ≡ true)
    × (find_operator whole (operators whole) max_int_name ≡ some (max_int whole))
unfolding none_pass find_operator jcontainers_ng.Item.Text.stricmp_eq
operator_run = (refl, refl, refl)

resolve-operator_example :
    resolve whole no_mods numbers (some 0) (some (b'@' ∷ max_int_name))
    ≡ done (some (some (fold_items whole (max_int whole) two_numbers blank) ∷ []))
resolve-operator_example =
    resolve-operator whole no_mods numbers 0 max_int_name (max_int whole) two_numbers (omega arith)
      operator_run.0 operator_run.1 (omega arith) operator_run.2 refl (refl, (refl, tt))

resolve-Ends_example : Ends (resolve whole no_mods two_maps (some 0) (some path_c0))
resolve-Ends_example = resolve-Ends whole no_mods two_maps (some 0) (some path_c0)
