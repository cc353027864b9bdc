-- ===== src/Json/Reading.antt =====
-- `json_deserializer`: containers from a JSON document. New containers wait in `to_fill` with their
-- nodes, and references wait in `to_resolve` until every container is filled.
use jcontainers_ng.Common.{
  ℕ, zero, suc, ◌+◌, Bool, true, false, not, ◌&&◌, ◌||◌, ◌==◌, if◌then◌else◌, ltb, Option, none,
  some, List, [], ◌∷◌, ◌++◌, ℤ, pos, negsuc, ◌%◌, ◌-◌,
}
use jcontainers_ng.Index.{Exec, done, fault, ◌>>=◌}
use jcontainers_ng.Item.{Item, blank, integer, real, form, string, from_object, from_bool}
use jcontainers_ng.Item.Text.{c_str}
use jcontainers_ng.Maps
use jcontainers_ng.Forms.Strings.{Mods, is_form_string, string_to_form}
use jcontainers_ng.Paths.{Key, int_key, Container, array, map, form_map, integer_map, Store, write}
use jcontainers_ng.Paths.Parse.{make_weak_form_id}
use jcontainers_ng.Json.{
  Json, json_null, json_true, json_false, json_integer, json_real, json_string, json_node, JsonNode,
  json_array, json_object, Document, Jansson, is_special_string, extract_path, meta_info,
  meta_info_legacy, type_name, form_map_name, integer_map_name, same_text, set_node,
}
use jcontainers_ng.Json.References.{push, assign_item, read_key, resolve_references}

-- `std::less` on texts compares their bytes.
unfoldable pub text_lt : List ℕ → List ℕ → Bool
text_lt [] [] = false
text_lt [] (b ∷ t) = true
text_lt (a ∷ s) [] = false
text_lt (a ∷ s) (b ∷ t) = ltb a b || ((a == b) && text_lt s t)

pub record Deserializer (R : Type 0) (D : Type 0) : Type 0 where
  pub store : Store R
  pub doc : Document D
  pub to_fill : List (ℕ × ℕ)
  pub to_resolve : List (List ℕ × List (ℕ × Key))

-- The conversion of a 64-bit integer to `int`.
unfoldable pub to_int32 : ℤ → ℤ
to_int32 (pos n) =
    let m = n % 4294967296 in if ltb m 2147483648 then pos m else negsuc (4294967295 - m)
to_int32 (negsuc n) =
    let m = n % 4294967296 in if ltb m 2147483648 then negsuc m else pos (4294967295 - m)

-- `value_or(0)`
abbrev pub form_or_zero : Option ℕ → ℕ
form_or_zero none = 0
form_or_zero (some n) = n

module _ {R : Type 0} {D : Type 0} where
  -- The new container waits to be filled.
  unfoldable pub add_object :
      Deserializer R D → ℕ → Option (Container R) → Option ℕ × Deserializer R D
  add_object d n none = (none, d)
  add_object d n (some c) =
      let a = d.store.next_address in
      (
        some a,
        record d {
          store = record (write d.store a c) { next_address = a + 1 };
          to_fill = d.to_fill ++ ((a, n) ∷ []);
        },
      )

  -- `_toResolve[path].push_back`
  unfoldable pub schedule_ref_resolving : Deserializer R D → List ℕ → ℕ → Key → Deserializer R D
  schedule_ref_resolving d path container item_key = record d {
    to_resolve =
        Maps.u_write text_lt [] d.to_resolve path
          (λ targets. targets ++ ((container, item_key) ∷ []));
  }

  abbrev pub put : Deserializer R D → ℕ → Container R → Deserializer R D
  put d a c = record d { store = write d.store a c }

module _ {D : Type 0} (lib : Jansson D) where
  open lib use {object_get, object_del}

  -- `metaInfo`, under its name or its older one.
  unfoldable pub find_meta : List (List ℕ × Json D) → Option (Json D)
  find_meta ms = elim (object_get ms meta_info) [
    | some meta ↦ some meta
    | none ↦ object_get ms meta_info_legacy
  ]

  unfoldable pub drop_meta : Document D → ℕ → List (List ℕ × Json D) → Option (Json D) → Document D
  drop_meta doc n ms none = doc
  drop_meta doc n ms (some meta) =
      set_node doc n (json_object (object_del (object_del ms meta_info) meta_info_legacy))

module _ {R : Type 0} {D : Type 0} (lib : Jansson D) where
  open lib use {object_get, object_del}

  -- The container that the name of a type asks for; `strcmp` reads through a null pointer when
  -- there is no text.
  unfoldable pub named_container : Option (Json D) → Exec (Option (Container R))
  named_container (some (json_string name)) = done (
      if same_text form_map_name (c_str name)
      then some (form_map [])
      else (if same_text integer_map_name (c_str name) then some (integer_map []) else none))
  named_container _ = fault

  unfoldable pub meta_object : JsonNode D → Exec (Option (Container R))
  meta_object (json_object ms) = named_container (object_get ms type_name)
  meta_object (json_array vs) = done (some (map []))

  unfoldable pub meta_container : Document D → Option (Json D) → Exec (Option (Container R))
  meta_container doc (some json_null) = done (some (form_map []))
  meta_container doc (some (json_node m)) = meta_object (doc.nodes m)
  meta_container doc _ = done (some (map []))

  unfoldable pub placeholder_at :
      Deserializer R D → ℕ → JsonNode D → Exec (Option ℕ × Deserializer R D)
  placeholder_at d n (json_array vs) = done (add_object d n (some (array [])))
  placeholder_at d n (json_object ms) = meta_container d.doc (find_meta lib ms) >>= λ c.
      done (add_object (record d { doc = drop_meta lib d.doc n ms (find_meta lib ms) }) n c)

  unfoldable pub make_placeholder : Deserializer R D → Json D → Exec (Option ℕ × Deserializer R D)
  make_placeholder d (json_node n) = placeholder_at d n (d.doc.nodes n)
  make_placeholder d _ = done (none, d)

  module _ (narrow : D → R) (mods : Mods) where
    unfoldable pub item_of_string : Deserializer R D → List ℕ → ℕ → Key → Item R × Deserializer R D
    item_of_string d s container item_key =
        if not (is_special_string s)
        then (string s, d)
        else (if is_form_string s
            then (form (make_weak_form_id (form_or_zero (string_to_form mods s))), d)
            else (elim (extract_path s) [
              | some path ↦ (blank, schedule_ref_resolving d path container item_key)
              | none ↦ (string s, d)
            ]))

    unfoldable pub make_item :
        Deserializer R D → Json D → ℕ → Key → Exec (Item R × Deserializer R D)
    make_item d json_null container item_key = done (blank, d)
    make_item d json_true container item_key = done (from_bool true, d)
    make_item d json_false container item_key = done (from_bool false, d)
    make_item d (json_integer n) container item_key = done (integer (to_int32 n), d)
    make_item d (json_real x) container item_key = done (real (narrow x), d)
    make_item d (json_string s) container item_key =
        done (item_of_string d (c_str s) container item_key)
    make_item d (json_node n) container item_key =
        make_placeholder d (json_node n) >>= λ r. done (from_object r.0, r.1)

    -- `helper` at an array.
    unfoldable pub fill_array : Deserializer R D → ℕ → List (Json D) → ℕ → Exec (Deserializer R D)
    fill_array d a [] index = done d
    fill_array d a (value ∷ values) index = make_item d value a (int_key (pos index)) >>= λ r.
        fill_array (put r.1 a (push (r.1.store.objects a) r.0)) a values (index + 1)

    unfoldable pub fill_member :
        Deserializer R D → ℕ → Option Key → Json D → Exec (Deserializer R D)
    fill_member d a none value = done d
    fill_member d a (some key) value = make_item d value a key >>= λ r.
        done (put r.1 a (assign_item (r.1.store.objects a) key r.0))

    -- `helper` at a map, a form map and an integer map.
    unfoldable pub fill_members :
        Deserializer R D → ℕ → List (List ℕ × Json D) → Exec (Deserializer R D)
    fill_members d a [] = done d
    fill_members d a ((key, value) ∷ ms) =
        fill_member d a (read_key mods (d.store.objects a) key) value >>= λ d'. fill_members d' a ms

    unfoldable pub fill_from : Deserializer R D → ℕ → JsonNode D → Exec (Deserializer R D)
    fill_from d a (json_array values) = fill_array d a values 0
    fill_from d a (json_object ms) = fill_members d a ms

    unfoldable pub fill_object : Deserializer R D → ℕ × ℕ → Exec (Deserializer R D)
    fill_object d p = fill_from d p.0 (d.doc.nodes p.1)

    unfoldable pub fill_each : Deserializer R D → List (ℕ × ℕ) → Exec (Deserializer R D)
    fill_each d [] = done d
    fill_each d (p ∷ ps) = fill_object d p >>= λ d'. fill_each d' ps

    -- The loop of `_object_from_json`, on fuel; `none` is fuel that ran out.
    unfoldable pub rounds : ℕ → Deserializer R D → List (ℕ × ℕ) → Exec (Option (Deserializer R D))
    rounds fuel d [] = done (some d)
    rounds zero d (p ∷ ps) = done none
    rounds (suc fuel) d (p ∷ ps) =
        fill_each (record d { to_fill = [] }) (p ∷ ps) >>= λ d'. rounds fuel d' d'.to_fill

    unfoldable pub finish : ℕ → Option (Deserializer R D) → Exec (Option (Option ℕ × Store R))
    finish root none = done none
    finish root (some d) = resolve_references mods d.store root d.to_resolve >>= λ s. elim s [
      | none ↦ done none
      | some s' ↦ done (some (some root, s'))
    ]

    unfoldable pub read_root : ℕ → Option ℕ × Deserializer R D → Exec (Option (Option ℕ × Store R))
    read_root fuel (none, d) = done (some (none, d.store))
    read_root fuel (some root, d) = rounds fuel d d.to_fill >>= λ d'. finish root d'

    -- `_object_from_json`
    unfoldable pub object_from_json :
        ℕ → Store R → Document D → Option (Json D) → Exec (Option (Option ℕ × Store R))
    object_from_json fuel s doc none = done (some (none, s))
    object_from_json fuel s doc (some ref) =
        make_placeholder (record { store = s; doc = doc; to_fill = []; to_resolve = [] }) ref
        >>= λ r. read_root fuel r
