-- ===== src/Json/Tests.antt =====
-- Runs of the JSON functions.
use jcontainers_ng.Common.{
  ℕ, zero, suc, ◌≡◌, refl, true, false, ◌==◌, if◌then◌else◌, Option, none, some, List, [], ◌∷◌,
  ◌++◌, arith, Bool-cases, inl, inr, ◌↔◌, pos, negsuc,
}
use jcontainers_ng.Index.{Exec, done, fault}
use jcontainers_ng.Item.{Item, integer, object, string, blank}
use jcontainers_ng.Forms.Strings.{Mods}
use jcontainers_ng.Paths.{Container, array, map, form_map, integer_map, Store}
use jcontainers_ng.Json.{
  Json, json_null, json_integer, json_string, json_node, json_array, json_object, JsonNode,
  Document, Jansson, same_text, reference_prefix, meta_info,
}
use jcontainers_ng.Json.Reading.{object_from_json}
use jcontainers_ng.Json.Written.{IsReadable}
use jcontainers_ng.Json.Writing.{create_json_value}
use jcontainers_ng.Common.Numerals
use jcontainers_ng.Paths.Access
use jcontainers_ng.Paths.Parse
use jcontainers_ng.Json.References
use jcontainers_ng.Json.Reading
use jcontainers_ng.Json.Keys
use jcontainers_ng.Json.Writing
use jcontainers_ng.Paths.{int_key, string_key, Key}
use jcontainers_ng.Json.Outcomes.{Returns}
use jcontainers_ng.Json.Keys.{contains, climb}
use jcontainers_ng.Json.Reading.{Deserializer, make_placeholder}
use jcontainers_ng.Json.Writing.{Serializer, write_json}
use jcontainers_ng.Json.Trees.{AllPairs, IsTree}
use jcontainers_ng.Json.Reads.{StaysBelow, IsFresh, object_from_json-Returns}
use jcontainers_ng.Json.Leads.{AllLead, write_json-Returns}
use jcontainers_ng.Json.Resolves.{Resolves, write_json-resolve_path}
use jcontainers_ng.Json.RoundTrip.{AllKept}
use jcontainers_ng.Json.Arrays.{object_from_json-create_json_value}
use jcontainers_ng.Json.MetaInfo.{IsNameless, make_placeholder-fault}

-- A JSON library that lists the pairs of an object in the order of insertion.
get_pair : {A : Type 0} → List (List ℕ × A) → List ℕ → Option A
get_pair [] key = none
get_pair ((k, v) ∷ ms) key = let rest = get_pair ms key in if same_text k key then some v else rest

del_pair : {A : Type 0} → List (List ℕ × A) → List ℕ → List (List ℕ × A)
del_pair [] key = []
del_pair ((k, v) ∷ ms) key =
    let rest = del_pair ms key in if same_text k key then rest else (k, v) ∷ rest

set_pair : {A : Type 0} → List (List ℕ × A) → List ℕ → Option A → List (List ℕ × A)
set_pair ms key none = ms
set_pair [] key (some v) = (key, v) ∷ []
set_pair ((k, w) ∷ ms) key (some v) =
    let rest = set_pair ms key (some v) in if same_text k key then (k, v) ∷ ms else (k, w) ∷ rest

append_item : {A : Type 0} → List A → Option A → List A
append_item xs none = xs
append_item xs (some a) = xs ++ (a ∷ [])

abbrev plain_lib : Jansson ℕ
plain_lib = record {
  object_get = get_pair;
  object_del = del_pair;
  object_set_new = set_pair;
  array_append_new = append_item;
  make_string = λ s. some (json_string s);
  make_real = λ x. some (Json.json_real x);
}

abbrev no_mods : Mods
no_mods = record {
  loaded_mod_name = λ n. none;
  loaded_light_mod_name = λ n. none;
  mod_form_from_file = λ f n. none;
}

-- An array of a number, a map and the array itself; the map holds the array and itself.
abbrev looped : Store ℕ
looped = record {
  objects = λ a.
      if a == 0
      then array (integer (pos 5) ∷ object (some 1) ∷ object (some 0) ∷ object (some 1) ∷ [])
      else if a == 1
      then map ((b'm' ∷ [], object (some 0)) ∷ (b's' ∷ [], object (some 1)) ∷ [])
      else if a == 2
      then integer_map ((pos 12, integer (pos 7)) ∷ (pos 40, object (some 2)) ∷ [])
      else array [];
  next_address = 3;
}

node_at : {D : Type 0} → Exec (Option (Option (Json D) × Document D)) → ℕ → Option (JsonNode D)
node_at (done (some r)) n = some (r.1.nodes n)
node_at _ n = none

object_at : {R : Type 0} → Exec (Option (Option ℕ × Store R)) → ℕ → Option (Container R)
object_at (done (some r)) a = some (r.1.objects a)
object_at _ a = none

abbrev written : Exec (Option (Option (Json ℕ) × Document ℕ))
written = create_json_value plain_lib true no_mods (λ x. x) looped 0

reread : Exec (Option (Option (Json ℕ) × Document ℕ)) → Exec (Option (Option ℕ × Store ℕ))
reread (done (some r)) = object_from_json plain_lib (λ x. x) no_mods 9 looped r.1 r.0
reread (done none) = done none
reread fault = fault

-- The second meeting of an object is a reference, and so is the array in itself.
write_twice :
    node_at written 0
    ≡ some (
        json_array (
          json_integer (pos 5)
          ∷ json_node 1
          ∷ json_string reference_prefix
          ∷ json_string (reference_prefix ++ (b'[' ∷ b'1' ∷ b']' ∷ []))
          ∷ []))
unfolding node_at create_json_value Writing.write_json Writing.create_placeholder Writing.rounds
    Writing.first_placeholder Writing.fill_each Writing.fill_container Writing.fill_array
    Writing.fill_member Writing.fill_members Writing.create_value Writing.fill_key_info
    Writing.put_metainfo Writing.append_to Writing.empty_node Writing.set_in Keys.contains
    Keys.path_to_object Keys.climb Keys.emplace Keys.find_info Keys.keys_text Keys.key_text
    Keys.members_of Keys.print_decimal Keys.print_int get_pair del_pair set_pair append_item
write_twice = refl

-- The copy has the same shape.
read_looped :
    object_at (reread written) 3
    ≡ some (array (integer (pos 5) ∷ object (some 4) ∷ object (some 3) ∷ object (some 4) ∷ []))
unfolding object_at reread create_json_value object_from_json Writing.write_json
    Writing.create_placeholder Writing.rounds Writing.first_placeholder Writing.fill_each
    Writing.fill_container Writing.fill_array Writing.fill_member Writing.fill_members
    Writing.create_value Writing.fill_key_info Writing.put_metainfo Writing.append_to
    Writing.empty_node Writing.set_in Keys.contains Keys.path_to_object Keys.climb Keys.emplace
    Keys.find_info Keys.keys_text Keys.key_text Keys.members_of Keys.print_decimal Keys.print_int
    Reading.make_placeholder Reading.placeholder_at Reading.add_object Reading.find_meta
    Reading.drop_meta Reading.meta_container Reading.meta_object Reading.named_container
    Reading.read_root Reading.rounds Reading.fill_each Reading.fill_object Reading.fill_from
    Reading.fill_array Reading.fill_members Reading.fill_member Reading.make_item
    Reading.item_of_string Reading.schedule_ref_resolving Reading.to_int32 Reading.finish
    Reading.text_lt References.push References.assign_item References.read_key
    References.resolve_references References.resolve_path References.assign_each
    References.assign_resolved jcontainers_ng.Json.is_special_string
    jcontainers_ng.Json.extract_path jcontainers_ng.Json.same_text
    jcontainers_ng.Forms.Strings.is_form_string jcontainers_ng.Forms.Strings.strip_prefix Access.get
    Access.access_constant Access.retrieve Access.recurs Access.constant_access Parse.parse_path
    Parse.parse_range Parse.index_key Parse.name_key Parse.find_if
    jcontainers_ng.Paths.u_access_value jcontainers_ng.Paths.u_assign_value
    jcontainers_ng.Array.u_get jcontainers_ng.Array.u_convert_index jcontainers_ng.Array.u_set
    jcontainers_ng.Maps.u_get jcontainers_ng.Maps.u_write jcontainers_ng.Item.Text.stricmp_lt
    Numerals.stoi Numerals.skip_spaces Numerals.read_signed Numerals.read_magnitude
    Numerals.read_digits Numerals.digit_value Numerals.to_int Numerals.after_zero
    Parse.make_cstring_safe get_pair del_pair set_pair append_item
read_looped = refl

-- Without the evaluation of `assert` every key of an integer map is the empty text.
write_without_assert :
    node_at (create_json_value plain_lib false no_mods (λ x. x) looped 2) 0
    ≡ some (json_object ((meta_info, json_node 1) ∷ ([], json_string reference_prefix) ∷ []))
unfolding node_at create_json_value Writing.write_json Writing.create_placeholder Writing.rounds
    Writing.first_placeholder Writing.fill_each Writing.fill_container Writing.fill_array
    Writing.fill_member Writing.fill_members Writing.create_value Writing.fill_key_info
    Writing.put_metainfo Writing.append_to Writing.empty_node Writing.set_in Keys.contains
    Keys.path_to_object Keys.climb Keys.emplace Keys.find_info Keys.keys_text Keys.key_text
    Keys.members_of Keys.print_decimal Keys.print_int get_pair del_pair set_pair append_item
    jcontainers_ng.Json.same_text
write_without_assert = refl

looped-IsReadable : IsReadable true no_mods looped
unfolding jcontainers_ng.Paths.u_access_value jcontainers_ng.Array.u_get
    jcontainers_ng.Array.u_convert_index jcontainers_ng.Maps.u_get
    jcontainers_ng.Item.Text.stricmp_lt Keys.members_of
looped-IsReadable zero h =
    (tt, ((omega arith, refl), ((omega arith, refl), ((omega arith, refl), tt))))
looped-IsReadable (suc zero) h = ((omega arith, refl), ((omega arith, refl), tt))
looped-IsReadable (suc (suc zero)) h = (tt, ((omega arith, refl), tt))
looped-IsReadable (suc (suc (suc a))) h = absurd (omega arith)

write_json-Returns_example :
    Returns
      (λ r.
        (contains r.1.serialized_objects 0 ≡ true) × AllLead looped 0 r.1 r.1.serialized_objects)
      (write_json plain_lib true no_mods (λ (x : ℕ). x) looped 0)
write_json-Returns_example =
    write_json-Returns plain_lib true no_mods (λ x. x) looped 0 looped-IsReadable (omega arith)

state_of : {A : Type 0} → A → Exec (Option A) → A
state_of a (done (some b)) = b
state_of a _ = a

abbrev looped_state : Option (Json ℕ) × Serializer ℕ
looped_state =
    state_of (none, Writing.at_start) (write_json plain_lib true no_mods (λ (x : ℕ). x) looped 0)

write_json-resolve_path_example : Resolves no_mods looped looped_state.1.key_info 0 1
unfolding state_of Writing.write_json Writing.create_placeholder Writing.rounds
    Writing.first_placeholder Writing.fill_each Writing.fill_container Writing.fill_array
    Writing.fill_member Writing.fill_members Writing.create_value Writing.fill_key_info
    Writing.put_metainfo Writing.append_to Writing.empty_node Writing.set_in Keys.contains
    Keys.path_to_object Keys.climb Keys.emplace Keys.find_info Keys.keys_text Keys.key_text
    Keys.members_of Keys.print_decimal Keys.print_int get_pair del_pair set_pair append_item
write_json-resolve_path_example =
    write_json-resolve_path plain_lib no_mods (λ (x : ℕ). x) looped 0 looped-IsReadable
      (omega arith) looped_state refl 1 (int_key (pos 1) ∷ []) refl refl (omega arith, tt)
      (omega arith)

abbrev plain_items : List (Item ℕ)
plain_items = integer (negsuc 4) ∷ string (b'a' ∷ b'b' ∷ []) ∷ blank ∷ []

abbrev flat : Store ℕ
flat = record { objects = λ a. array plain_items; next_address = 1 }

plain_items-AllKept : AllKept plain_lib no_mods (λ x. x) (λ x. x) plain_items
unfolding jcontainers_ng.Json.is_special_string jcontainers_ng.Forms.Strings.strip_prefix
plain_items-AllKept = (omega arith, ((refl, refl, refl), (tt, tt)))

append_item-last : {A : Type 0} (xs : List A) (a : A) → append_item xs (some a) ≡ xs ++ (a ∷ [])
unfolding append_item
append_item-last xs a = refl

object_from_json-create_json_value_example :
    (r : Option (Json ℕ) × Document ℕ) × (create_json_value plain_lib false no_mods (λ x. x) flat 0
      ≡ done (some r))
    × (t' : Store ℕ) × (object_from_json plain_lib (λ x. x) no_mods 1 looped r.1 r.0
        ≡ done (some (some 3, t')))
    × (t'.objects 3 ≡ array plain_items)
object_from_json-create_json_value_example =
    object_from_json-create_json_value plain_lib no_mods (λ x. x) (λ x. x)
      (λ vs v. append_item-last vs v) plain_items plain_items-AllKept false flat looped 0 1
      (omega arith) refl (omega arith)

del_pair-AllPairs :
    (P : Json ℕ → Type 0) (ms : List (List ℕ × Json ℕ)) (key : List ℕ)
    → AllPairs P ms
    → AllPairs P (del_pair ms key)
unfolding del_pair
del_pair-AllPairs P [] key h = tt
del_pair-AllPairs P ((k, v) ∷ ms) key h = elim (Bool-cases (same_text k key)) [
  | inl same ↦ rw same (del_pair-AllPairs P ms key h.1)
  | inr other ↦ rw other (h.0, del_pair-AllPairs P ms key h.1)
]

-- An object with an array under a name.
abbrev small : Document ℕ
small = record {
  nodes = λ n.
      if n == 0 then json_object ((b'a' ∷ [], json_node 1) ∷ []) else json_array (json_null ∷ []);
  next_node = 2;
}

small-IsTree : IsTree small
small-IsTree zero = ((omega arith, omega arith), tt)
small-IsTree (suc n) = let e : (suc n == 0) ≡ false = ground arith in rw e (tt, tt)

object_from_json-Returns_example :
    Returns
      (λ r. IsFresh looped r.0 × StaysBelow looped r.1)
      (object_from_json plain_lib (λ (x : ℕ). x) no_mods 2 looped small (some (json_node 0)))
object_from_json-Returns_example =
    object_from_json-Returns plain_lib del_pair-AllPairs (λ x. x) no_mods looped small small-IsTree
      2 (some (json_node 0)) (omega arith) (omega arith, omega arith)

-- Meta information without a name.
abbrev nameless : Deserializer ℕ ℕ
nameless = record {
  store = looped;
  doc = record {
    nodes = λ n. if n == 0 then json_object ((meta_info, json_node 1) ∷ []) else json_object [];
    next_node = 2;
  };
  to_fill = [];
  to_resolve = [];
}

make_placeholder-fault_example :
    (make_placeholder plain_lib nameless (json_node 0) ≡ fault)
    ↔ IsNameless plain_lib nameless.doc 0
make_placeholder-fault_example = make_placeholder-fault plain_lib nameless 0
