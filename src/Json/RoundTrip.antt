-- ===== src/Json/RoundTrip.antt =====
-- An array of items that are kept, written by `create_json_value` and read by `object_from_json`.
use mathlib.Core.List.{append_assoc, append-nil}
use jcontainers_ng.Common.{
  ℕ, ◌+◌, ◌++◌, ◌≡◌, refl, ap, sym, ◌∙◌, Bool, true, ◌==◌, Option, none, some, List, [], ◌∷◌, arith,
  pos,
}
use jcontainers_ng.Index.{Exec, done, ◌>>=◌}
use jcontainers_ng.Item.{Item, object_of}
use jcontainers_ng.Forms.Strings.{Mods}
use jcontainers_ng.Paths.{Key, int_key, array, Store}
use jcontainers_ng.Copying.Unique.{write_same}
use jcontainers_ng.Json.{Json, JsonNode, json_array, Document, Jansson, set_node}
use jcontainers_ng.Json.Outcomes.{and_then}
use jcontainers_ng.Json.References.{push}
use jcontainers_ng.Json.Reading
use jcontainers_ng.Json.Reading.{Deserializer, object_from_json, make_item, put}
use jcontainers_ng.Json.Writing
use jcontainers_ng.Json.Writing.{
  Serializer, create_json_value, create_value, append_to, write_node, fill_key_info, no_document,
  at_start,
}
use jcontainers_ng.Json.Items.{IsKept, IsKept-value, IsKept-plain}

-- `json_array_append_new` puts a value last.
abbrev pub AppendsLast : {D : Type 0} → Jansson D → Type 0
AppendsLast {D} lib =
    (vs : List (Json D)) (v : Json D) → lib.array_append_new vs (some v) ≡ vs ++ (v ∷ [])

module _ {R D : Type 0} (lib : Jansson D) (mods : Mods) (widen : R → D) (narrow : D → R) where
  abbrev pub AllKept : List (Item R) → Type 0
  AllKept [] = Unit
  AllKept (itm ∷ items) = IsKept lib mods widen narrow itm × AllKept items

  pub values_of : (items : List (Item R)) → AllKept items → List (Json D)
  values_of [] h = []
  values_of (itm ∷ items) h = (IsKept-value lib mods widen narrow itm h.0).0 ∷ values_of items h.1

  set_same : (doc : Document D) (n : ℕ) (node : JsonNode D) → (set_node doc n node).nodes n ≡ node
  set_same doc n node = let e : (n == n) ≡ true = ground arith in rw e refl

  fill_key_info-plain :
      (st : Serializer D) (itm : Item R) (cnt : ℕ) (key : Key)
      → object_of itm ≡ none
      → fill_key_info st itm cnt key ≡ st
  unfolding fill_key_info
  fill_key_info-plain st itm cnt key h = rw (h, fill_key_info) refl

  -- The array's node holds the values of the items in their order; nothing is left to fill.
  abbrev pub Filled : Serializer D → ℕ → List (Json D) → Exec (Option (Serializer D)) → Type 0
  Filled st n vs r =
      (st' : Serializer D) × (r ≡ done (some st'))
      × (st'.doc.nodes n ≡ json_array vs)
      × (st'.to_fill ≡ st.to_fill)

  module _ (last : AppendsLast lib) where
    pub fill_array-values :
        (asserts : Bool) (root : ℕ) (s : Store R) (cnt n : ℕ) (items : List (Item R))
        (st : Serializer D) (vs : List (Json D)) (index : ℕ) (h : AllKept items)
        → st.doc.nodes n ≡ json_array vs
        → Filled st n
            (vs ++ values_of items h)
            (Writing.fill_array lib asserts mods widen root s st cnt n items index)
    unfolding Writing.fill_array values_of
    fill_array-values asserts root s cnt n [] st vs index h e =
        (st, refl, e ∙ ap json_array (sym (append-nil vs)), refl)
    fill_array-values asserts root s cnt n (itm ∷ items) st vs index h e =
        let (v, both) = IsKept-value lib mods widen narrow itm h.0 in
        let st' = write_node st n (append_to lib (st.doc.nodes n) (some v)) in
        let node : st'.doc.nodes n ≡ json_array (vs ++ (v ∷ [])) =
          set_same st.doc n _ ∙ (rw e (unfold append_to in ap json_array (last vs v))) in
        let (st'', done_, filled, left) =
          fill_array-values asserts root s cnt n items st' (vs ++ (v ∷ [])) (index + 1) h.1 node in
        (
          st'',
          rw
              (fill_key_info-plain st itm cnt (int_key (pos index))
                (IsKept-plain lib mods widen narrow itm h.0))
              (rw (both.0 asserts root s st, and_then) done_),
          filled ∙ ap json_array (append_assoc vs (v ∷ []) (values_of items h.1)),
          left,
        )

  -- The container at `a` holds the items; nothing waits that did not wait before.
  abbrev pub Read : Deserializer R D → ℕ → List (Item R) → Exec (Deserializer R D) → Type 0
  Read d a items r =
      (d' : Deserializer R D) × (r ≡ done d')
      × (d'.store.objects a ≡ array items)
      × (d'.to_fill ≡ d.to_fill)
      × (d'.to_resolve ≡ d.to_resolve)

  pub fill_array-items :
      (items : List (Item R)) (d : Deserializer R D) (a : ℕ) (xs : List (Item R)) (index : ℕ)
      (h : AllKept items)
      → d.store.objects a ≡ array xs
      → Read d a (xs ++ items) (Reading.fill_array lib narrow mods d a (values_of items h) index)
  unfolding Reading.fill_array values_of
  fill_array-items [] d a xs index h e = (d, refl, e ∙ ap array (sym (append-nil xs)), refl, refl)
  fill_array-items (itm ∷ items) d a xs index h e =
      let (v, both) = IsKept-value lib mods widen narrow itm h.0 in
      let d' = put d a (push (d.store.objects a) itm) in
      let pushed : d'.store.objects a ≡ array (xs ++ (itm ∷ [])) =
        write_same d.store a _ ∙ (rw e (unfold push in refl)) in
      let (d'', done_, holds, fill, resolve) =
        fill_array-items items d' a (xs ++ (itm ∷ [])) (index + 1) h.1 pushed in
      (
        d'',
        rw (both.1 d a (int_key (pos index)), ◌>>=◌) done_,
        holds ∙ ap array (append_assoc xs (itm ∷ []) items),
        fill,
        resolve,
      )
