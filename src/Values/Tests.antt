-- ===== src/Values/Tests.antt =====
-- Runs of the functions of api_3/tes_object.h on an empty map and a map with a name.
use jcontainers_ng.Common.{
  ℕ, ◌≡◌, ◌<◌, refl, sym, ◌∙◌, true, false, none, some, List, [], ◌∷◌, ◌==◌, ltb, arith, ℤ, pos,
  negsuc, Option,
}
use jcontainers_ng.Index.{Exec, done}
use jcontainers_ng.Values.Pools.{add_to_pool}
use jcontainers_ng.Item.{Reals, Item, integer, object, object_of, int_value}
use jcontainers_ng.Forms.Strings.{Mods}
use jcontainers_ng.Maps
use jcontainers_ng.Paths.{Store, Container, array, map, name_lt}
use jcontainers_ng.Paths.Parse.{is_key_end}
use jcontainers_ng.Paths.Segments.{print_path, AreWritable, none_pass}
use jcontainers_ng.Paths.Create.{named_all}
use jcontainers_ng.Values.{resolve_getter, solve_setter, count, clear}
use jcontainers_ng.Values.Solve.{resolve_getter-solve_setter}
use jcontainers_ng.Values.Entries.{
  check_text, find_entry, find_map_entry, get_entry_item, has_entry_path, solve_entry_getter,
}
use jcontainers_ng.Values.Entries.Writing.{set_entry_item}
use jcontainers_ng.Values.Entries.Round.{get_entry_item-set_entry_item}
use jcontainers_ng.Values.Entries.Keys.{entry_path, has_entry_path-key}

abbrev no_mods : Mods
no_mods = record {
  loaded_mod_name = λ n. none;
  loaded_light_mod_name = λ n. none;
  mod_form_from_file = λ file form. none;
}

abbrev pos_part : ℤ → ℕ
pos_part (pos n) = n
pos_part (negsuc n) = 0

-- Whole numbers in place of the floats.
abbrev whole : Reals
whole = record {
  Real = ℕ;
  from_int = pos_part;
  to_int = pos;
  real_lt = ltb;
  real_eq = λ a b. a == b;
}

abbrev one_map : Store ℕ
one_map = record { objects = λ a. map []; next_address = 1 }

-- "a" and "b".
abbrev name_a : List ℕ
name_a = b'a' ∷ []

abbrev name_b : List ℕ
name_b = b'b' ∷ []

abbrev path_ab : List ℕ
path_ab = print_path (named_all (name_a ∷ name_b ∷ []))

key_run :
    (none_pass is_key_end name_a ≡ true)
    × (none_pass (λ c. c == 0) (entry_path name_a name_b) ≡ true)
unfolding none_pass
key_run = (refl, refl)

writable_run :
    AreWritable (named_all (name_a ∷ name_b ∷ [])) × (none_pass (λ c. c == 0) path_ab ≡ true)
unfolding none_pass
writable_run = (((omega arith, refl), ((omega arith, refl), tt)), refl)

missing_run : Maps.u_get {V = Item ℕ} name_lt [] name_a ≡ none
unfolding Maps.u_get
missing_run = refl

resolve_getter-solve_setter_example :
    (s' : Store ℕ) × (solve_setter no_mods one_map (some 0) (some path_ab) (integer (pos 8)) true
      ≡ done (some (true, s')))
    × (resolve_getter whole no_mods (int_value whole) s' (some 0) (some path_ab) (pos 0)
        ≡ done (some (int_value whole (integer (pos 8)))))
resolve_getter-solve_setter_example =
    resolve_getter-solve_setter whole no_mods (int_value whole) one_map 0 [] name_a (name_b ∷ [])
      (integer (pos 8)) (pos 0) writable_run.0 writable_run.1 (omega arith) refl missing_run
      (omega arith)

count_run : count (clear one_map (some 0)) (some 0) ≡ 0
unfolding count clear jcontainers_ng.Copying.items_of jcontainers_ng.Copying.with_items
    jcontainers_ng.Copying.values jcontainers_ng.Copying.with_values
count_run = refl

abbrev at_two : Exec (Option (Store ℕ)) → Option (Container ℕ)
at_two (done (some s)) = some (s.objects 2)
at_two _ = none

-- The pool "a" of an empty root, at 2, holds the object that was added.
pool_run :
    at_two (add_to_pool no_mods one_map 0 (some 0) (some name_a))
    ≡ some (array (object (some 0) ∷ []))
unfolding add_to_pool jcontainers_ng.Paths.Access.access_creative
    jcontainers_ng.Paths.Access.retrieve jcontainers_ng.Paths.Access.recurs
    jcontainers_ng.Paths.Access.creative_access jcontainers_ng.Paths.Access.fill
    jcontainers_ng.Paths.Access.create jcontainers_ng.Paths.Access.write_item
    jcontainers_ng.Paths.Parse.parse_path jcontainers_ng.Paths.Parse.parse_range
    jcontainers_ng.Paths.Parse.make_cstring_safe jcontainers_ng.Paths.Parse.name_key
    jcontainers_ng.Paths.Parse.find_if jcontainers_ng.Paths.u_access_value
    jcontainers_ng.Paths.u_assign_value Maps.u_get Maps.u_write jcontainers_ng.Item.Text.stricmp_lt
    jcontainers_ng.Values.Pools.location jcontainers_ng.Values.Pools.as_array
    jcontainers_ng.Values.Pools.push_item
pool_run = refl

-- The form 0x14 and the path ".a.b".
has_entry_path-key_example :
    (has_entry_path no_mods one_map 0 0x14 (some (entry_path name_a name_b)) ≡ done (some false))
    × (solve_entry_getter whole no_mods
          (int_value whole)
          one_map
          0
          0x14
          (some (entry_path name_a name_b))
          (pos 3)
        ≡ resolve_getter whole no_mods
            (int_value whole)
            one_map
            (find_entry one_map 0 (some name_a) 0x14)
            (some (b'.' ∷ name_b))
            (pos 3))
has_entry_path-key_example =
    has_entry_path-key whole no_mods (int_value whole) one_map 0 0x14 name_a b'b' [] (pos 3)
      (omega arith) (omega arith) key_run.0 refl key_run.1

none-some : {A : Type 0} {x : A} → ¬ (none ≡ some x)
none-some e = cc

no_storage_run : find_map_entry one_map 0 (some name_a) 0x14 ≡ none
unfolding find_map_entry find_entry jcontainers_ng.Values.Pools.as_map
    jcontainers_ng.Values.Entries.as_form_map Maps.do_read_op_r Maps.u_get
no_storage_run = refl

no_storage :
    (f : ℕ)
    → Maps.get_item {V = Item ℕ} name_lt check_text object_of (some []) name_a none ≡ some f
    → f < 1
unfolding Maps.do_read_op_r Maps.u_get
no_storage f e = absurd cc

get_entry_item-set_entry_item_example :
    get_entry_item
      (int_value whole)
      (pos 3)
      (set_entry_item one_map 0 0x14 (some (entry_path name_a name_b)) (integer (pos 8)))
      0
      0x14
      (some (entry_path name_a name_b))
    ≡ int_value whole (integer (pos 8))
get_entry_item-set_entry_item_example =
    get_entry_item-set_entry_item (int_value whole) one_map 0 0x14 name_a b'b' [] []
      (integer (pos 8)) (pos 3) refl (omega arith) refl no_storage
      (λ e. none-some (sym no_storage_run ∙ e)) (omega arith) (omega arith) key_run.0 key_run.1
