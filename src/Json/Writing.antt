-- ===== src/Json/Writing.antt =====
-- `json_serializer`: containers to a JSON document. An object gets its node when an item first refers
-- to it, and every later item gets a text with the path from the root to the object.
use jcontainers_ng.Common.{
  ℕ, zero, suc, ◌+◌, Bool, if◌then◌else◌, Option, none, some, List, [], ◌∷◌, ◌++◌, pos,
}
use jcontainers_ng.Index.{Exec, done}
use jcontainers_ng.Item.{Item, blank, integer, real, form, object, string, form_get, object_of}
use jcontainers_ng.Item.Text.{c_str}
use jcontainers_ng.Forms.Strings.{Mods, form_to_string}
use jcontainers_ng.Paths.{Key, int_key, Container, array, map, form_map, integer_map, Store}
use jcontainers_ng.Json.{
  Json, json_null, json_integer, json_node, JsonNode, json_array, json_object, Document, Jansson,
  meta_info, type_name, form_map_name, integer_map_name, set_node, new_node,
}
use jcontainers_ng.Json.Outcomes.{and_then}
use jcontainers_ng.Json.Keys.{KeyInfo, contains, emplace, path_to_object, members_of}

pub record Serializer (D : Type 0) : Type 0 where
  pub serialized_objects : List ℕ
  pub to_fill : List (ℕ × ℕ)
  pub key_info : KeyInfo
  pub doc : Document D

module _ {D : Type 0} where
  abbrev pub write_node : Serializer D → ℕ → JsonNode D → Serializer D
  write_node st n node = record st { doc = set_node st.doc n node }

  abbrev pub no_document : Document D
  no_document = record { nodes = λ n. json_array []; next_node = 0 }

  abbrev pub at_start : Serializer D
  at_start = record { serialized_objects = []; to_fill = []; key_info = []; doc = no_document }

module _ {D : Type 0} (lib : Jansson D) where
  open lib use {object_set_new, array_append_new, make_string}

  unfoldable pub append_to : JsonNode D → Option (Json D) → JsonNode D
  append_to (json_array vs) v = json_array (array_append_new vs v)
  append_to (json_object ms) v = json_object ms

  unfoldable pub set_in : JsonNode D → List ℕ → Option (Json D) → JsonNode D
  set_in (json_array vs) key v = json_array vs
  set_in (json_object ms) key v = json_object (object_set_new ms key v)

  unfoldable pub put_metainfo : Serializer D → ℕ → List ℕ → Serializer D
  put_metainfo st n name =
      let made = new_node st.doc (json_object (object_set_new [] type_name (make_string name))) in
      record st {
        doc = set_node made.1 n (set_in (made.1.nodes n) meta_info (some (json_node made.0)));
      }

module _ {R : Type 0} {D : Type 0} where
  unfoldable pub empty_node : Container R → JsonNode D
  empty_node (array xs) = json_array []
  empty_node c = json_object []

  -- The node of an object that is met for the first time.
  unfoldable pub first_placeholder : Store R → Serializer D → ℕ → Option (Json D) × Serializer D
  first_placeholder s st obj =
      let made = new_node st.doc (empty_node (s.objects obj)) in
      (
        some (json_node made.0),
        record st {
          serialized_objects = obj ∷ st.serialized_objects;
          to_fill = st.to_fill ++ ((obj, made.0) ∷ []);
          doc = made.1;
        },
      )

  unfoldable pub fill_key_info : Serializer D → Item R → ℕ → Key → Serializer D
  fill_key_info st value in_object key = elim (object_of value) [
    | none ↦ st
    | some obj ↦ record st { key_info = emplace st.key_info obj (in_object, key) }
  ]

  module _ (lib : Jansson D) where
    open lib use {make_string, make_real}

    module _ (asserts : Bool) (mods : Mods) (widen : R → D) (root : ℕ) (s : Store R) where
      unfoldable pub create_placeholder :
          Serializer D → ℕ → Exec (Option (Option (Json D) × Serializer D))
      create_placeholder st obj =
          if contains st.serialized_objects obj
          then and_then (path_to_object asserts mods st.key_info root obj)
              (λ path. done (some (make_string (c_str path), st)))
          else done (some (first_placeholder s st obj))

      -- `item_visitor`
      unfoldable pub create_value :
          Serializer D → Item R → Exec (Option (Option (Json D) × Serializer D))
      create_value st blank = done (some (some json_null, st))
      create_value st (integer n) = done (some (some (json_integer n), st))
      create_value st (real x) = done (some (make_real (widen x), st))
      create_value st (form f) = elim (form_to_string mods (form_get f)) [
        | none ↦ done (some (some json_null, st))
        | some text ↦ done (some (make_string text, st))
      ]
      create_value st (object none) = done (some (some json_null, st))
      create_value st (object (some obj)) = create_placeholder st obj
      create_value st (string text) = done (some (make_string text, st))

      -- `helper` at an array.
      unfoldable pub fill_array :
          Serializer D → ℕ → ℕ → List (Item R) → ℕ → Exec (Option (Serializer D))
      fill_array st cnt n [] index = done (some st)
      fill_array st cnt n (itm ∷ items) index =
          and_then (create_value (fill_key_info st itm cnt (int_key (pos index))) itm) (λ r.
            fill_array (write_node r.1 n (append_to lib (r.1.doc.nodes n) r.0)) cnt n items
              (index + 1))

      unfoldable pub fill_member :
          Serializer D → ℕ → ℕ → Option (Key × List ℕ) × Item R → Exec (Option (Serializer D))
      fill_member st cnt n (none, itm) = done (some st)
      fill_member st cnt n (some (key, text), itm) =
          and_then (create_value (fill_key_info st itm cnt key) itm)
            (λ r. done (some (write_node r.1 n (set_in lib (r.1.doc.nodes n) text r.0))))

      -- `helper` at a map, a form map and an integer map.
      unfoldable pub fill_members :
          Serializer D
          → ℕ
          → ℕ
          → List (Option (Key × List ℕ) × Item R)
          → Exec (Option (Serializer D))
      fill_members st cnt n [] = done (some st)
      fill_members st cnt n (p ∷ ps) =
          and_then (fill_member st cnt n p) (λ st'. fill_members st' cnt n ps)

      unfoldable pub fill_container :
          Serializer D → ℕ → ℕ → Container R → Exec (Option (Serializer D))
      fill_container st cnt n (array xs) = fill_array st cnt n xs 0
      fill_container st cnt n (map m) = fill_members st cnt n (members_of asserts mods (map m))
      fill_container st cnt n (form_map m) =
          fill_members (put_metainfo lib st n form_map_name) cnt n
            (members_of asserts mods (form_map m))
      fill_container st cnt n (integer_map m) =
          fill_members (put_metainfo lib st n integer_map_name) cnt n
            (members_of asserts mods (integer_map m))

      unfoldable pub fill_each : Serializer D → List (ℕ × ℕ) → Exec (Option (Serializer D))
      fill_each st [] = done (some st)
      fill_each st ((cnt, n) ∷ ps) =
          and_then (fill_container st cnt n (s.objects cnt)) (λ st'. fill_each st' ps)

      -- The loop of `_write_json`, on fuel.
      unfoldable pub rounds : ℕ → Serializer D → List (ℕ × ℕ) → Exec (Option (Serializer D))
      rounds fuel st [] = done (some st)
      rounds zero st (p ∷ ps) = done none
      rounds (suc fuel) st (p ∷ ps) =
          and_then (fill_each (record st { to_fill = [] }) (p ∷ ps))
            (λ st'. rounds fuel st' st'.to_fill)

module _ {R D : Type 0} (lib : Jansson D) (asserts : Bool) (mods : Mods) (widen : R → D)
    (s : Store R) (root : ℕ) where
  -- `_write_json`, with as many rounds as there are addresses in use.
  unfoldable pub write_json : Exec (Option (Option (Json D) × Serializer D))
  write_json = and_then (create_placeholder lib asserts mods widen root s at_start root) (λ r.
      and_then (rounds lib asserts mods widen root s s.next_address r.1 r.1.to_fill)
        (λ st. done (some (r.0, st))))

  unfoldable pub create_json_value : Exec (Option (Option (Json D) × Document D))
  create_json_value = and_then write_json (λ r. done (some (r.0, r.1.doc)))
