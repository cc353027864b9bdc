-- ===== src/Json/MetaInfo.antt =====
-- The meta information of a JSON object: when `make_placeholder` reads through a null pointer.
use jcontainers_ng.Common.{ℕ, ◌≡◌, refl, ◌↔◌, Option, none, some, List, inl, inr, ◌⊎◌}
use jcontainers_ng.Index.{fault, ◌>>=◌}
use jcontainers_ng.Paths.Walk.{Exec-cases}
use jcontainers_ng.Json.{
  Json, json_null, json_true, json_false, json_integer, json_real, json_string, json_node, JsonNode,
  json_array, json_object, Document, Jansson, type_name,
}
use jcontainers_ng.Json.Reading.{
  Deserializer, find_meta, named_container, meta_object, meta_container, placeholder_at,
  make_placeholder,
}

-- A value that `json_string_value` has a text for.
abbrev pub IsText : {D : Type 0} → Option (Json D) → Type 0
IsText (some (json_string s)) = Unit
IsText _ = ⊥

-- The node is an object, its meta information is an object, and that has no text `typeName`.
pub record IsNameless {D : Type 0} (lib : Jansson D) (doc : Document D) (n : ℕ) : Type 0 where
  pub members : List (List ℕ × Json D)
  pub meta : ℕ
  pub meta_members : List (List ℕ × Json D)
  pub is_object : doc.nodes n ≡ json_object members
  pub has_meta : find_meta lib members ≡ some (json_node meta)
  pub meta_is_object : doc.nodes meta ≡ json_object meta_members
  pub no_name : ¬ IsText (lib.object_get meta_members type_name)

JsonNode-cases :
    {D : Type 0} (node : JsonNode D)
    → ((vs : List (Json D)) × (node ≡ json_array vs))
      ⊎ ((ms : List (List ℕ × Json D)) × (node ≡ json_object ms))
JsonNode-cases (json_array vs) = inl (vs, refl)
JsonNode-cases (json_object ms) = inr (ms, refl)

module _ {R D : Type 0} (lib : Jansson D) where
  named_container-fault : (v : Option (Json D)) → named_container {R = R} lib v ≡ fault → ¬ IsText v
  unfolding named_container
  named_container-fault (some (json_string s)) e t = cc
  named_container-fault none e t = t
  named_container-fault (some json_null) e t = t
  named_container-fault (some json_true) e t = t
  named_container-fault (some json_false) e t = t
  named_container-fault (some (json_integer n)) e t = t
  named_container-fault (some (json_real x)) e t = t
  named_container-fault (some (json_node n)) e t = t

  named_container-nameless :
      (v : Option (Json D)) → ¬ IsText v → named_container {R = R} lib v ≡ fault
  unfolding named_container
  named_container-nameless (some (json_string s)) h = absurd (h tt)
  named_container-nameless none h = refl
  named_container-nameless (some json_null) h = refl
  named_container-nameless (some json_true) h = refl
  named_container-nameless (some json_false) h = refl
  named_container-nameless (some (json_integer n)) h = refl
  named_container-nameless (some (json_real x)) h = refl
  named_container-nameless (some (json_node n)) h = refl

  -- Only an object makes the call fail.
  meta_container-fault :
      (doc : Document D) (v : Option (Json D))
      → meta_container {R = R} lib doc v ≡ fault
      → (m : ℕ) × (v ≡ some (json_node m))
        × (ms : List (List ℕ × Json D)) × (doc.nodes m ≡ json_object ms)
        × (¬ IsText (lib.object_get ms type_name))
  unfolding meta_container meta_object
  meta_container-fault doc none e = cc
  meta_container-fault doc (some json_null) e = cc
  meta_container-fault doc (some json_true) e = cc
  meta_container-fault doc (some json_false) e = cc
  meta_container-fault doc (some (json_integer n)) e = cc
  meta_container-fault doc (some (json_real x)) e = cc
  meta_container-fault doc (some (json_string s)) e = cc
  meta_container-fault doc (some (json_node m)) e = elim (JsonNode-cases (doc.nodes m)) [
    | inl (vs, is_array) ↦ cc (rw (is_array, meta_object) at e)
    | inr (ms, is_object) ↦ (
      m,
      refl,
      ms,
      is_object,
      named_container-fault (lib.object_get ms type_name) (rw (is_object, meta_object) at e),
    )
  ]

  module _ (d : Deserializer R D) (n : ℕ) where
    fault-IsNameless : make_placeholder lib d (json_node n) ≡ fault → IsNameless lib d.doc n
    unfolding make_placeholder placeholder_at
    fault-IsNameless e = elim (JsonNode-cases (d.doc.nodes n)) [
      | inl (vs, is_array) ↦ cc (rw (is_array, placeholder_at) at e)
      | inr (ms, is_object) ↦
          elim (Exec-cases (meta_container {R = R} lib d.doc (find_meta lib ms))) [
            | inr (c, good) ↦ cc (rw (good, ◌>>=◌) at (rw (is_object, placeholder_at) at e))
            | inl bad ↦
                let (m, found, ms', meta_is_object, no_name) =
                  meta_container-fault d.doc (find_meta lib ms) bad in
                record {
                  members = ms;
                  meta = m;
                  meta_members = ms';
                  is_object = is_object;
                  has_meta = found;
                  meta_is_object = meta_is_object;
                  no_name = no_name;
                }
          ]
    ]

    IsNameless-fault : IsNameless lib d.doc n → make_placeholder lib d (json_node n) ≡ fault
    unfolding make_placeholder placeholder_at meta_container meta_object
    IsNameless-fault i =
        rw (i.is_object, placeholder_at)
          (rw (i.has_meta, meta_container)
            (rw (i.meta_is_object, meta_object)
              (rw
                (
                  named_container-nameless (lib.object_get i.meta_members type_name) i.no_name,
                  ◌>>=◌,
                )
                refl)))

    -- The creation of a container for a JSON value with a node fails, by a read through a null pointer,
    -- exactly for an object whose `__metaInfo`, or else `__formData`, is an object without a text
    -- `typeName`.
    pub make_placeholder-fault :
        (make_placeholder lib d (json_node n) ≡ fault) ↔ IsNameless lib d.doc n
    make_placeholder-fault = (fault-IsNameless, IsNameless-fault)
