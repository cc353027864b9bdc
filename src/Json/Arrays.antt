-- ===== src/Json/Arrays.antt =====
-- The round trip of an array through `create_json_value` and `object_from_json`.
use jcontainers_ng.Common.{
  ℕ, zero, suc, ◌<◌, ◌≡◌, refl, ap, ◌∙◌, Bool, Option, some, List, [], ◌∷◌, arith,
}
use jcontainers_ng.Index.{done, ◌>>=◌}
use jcontainers_ng.Item.{Item}
use jcontainers_ng.Forms.Strings.{Mods}
use jcontainers_ng.Paths.{array, Store}
use jcontainers_ng.Copying.Unique.{write_same}
use jcontainers_ng.Json.{Json, json_node, json_array, Document, Jansson}
use jcontainers_ng.Json.Outcomes.{and_then}
use jcontainers_ng.Json.References.{resolve_references}
use jcontainers_ng.Json.Reading
use jcontainers_ng.Json.Reading.{Deserializer, object_from_json, make_item, put}
use jcontainers_ng.Json.Keys.{contains}
use jcontainers_ng.Json.Writing
use jcontainers_ng.Json.Writing.{
  Serializer, create_json_value, create_value, append_to, write_node, fill_key_info, no_document,
  at_start,
}
use jcontainers_ng.Json.RoundTrip.{
  AppendsLast, AllKept, values_of, fill_array-values, fill_array-items,
}

module _ {R D : Type 0} (lib : Jansson D) (asserts : Bool) (mods : Mods) (widen : R → D)
    (s : Store R) (root : ℕ) where
  written_nil :
      (fuel : ℕ) (st : Serializer D) (ps : List (ℕ × ℕ))
      → ps ≡ []
      → Writing.rounds lib asserts mods widen root s fuel st ps ≡ done (some st)
  unfolding Writing.rounds
  written_nil zero st ps e = rw e refl
  written_nil (suc fuel) st ps e = rw e refl

  fill_container-array :
      (st : Serializer D) (cnt n : ℕ) (xs : List (Item R))
      → Writing.fill_container lib asserts mods widen root s st cnt n (array xs)
        ≡ Writing.fill_array lib asserts mods widen root s st cnt n xs 0
  unfolding Writing.fill_container
  fill_container-array st cnt n xs = refl

  written_once :
      (fuel : ℕ) (st st' : Serializer D) (n : ℕ)
      → 0 < fuel
      → Writing.fill_container lib asserts mods widen root s
          (record st { to_fill = [] })
          root
          n
          (s.objects root)
        ≡ done (some st')
      → st'.to_fill ≡ []
      → Writing.rounds lib asserts mods widen root s fuel st ((root, n) ∷ []) ≡ done (some st')
  unfolding Writing.rounds Writing.fill_each
  written_once zero st st' n h e w = absurd (omega arith)
  written_once (suc fuel) st st' n h e w = rw (e, and_then) (written_nil fuel st' st'.to_fill w)

module _ {R D : Type 0} (lib : Jansson D) (narrow : D → R) (mods : Mods) where
  read_nil :
      (fuel : ℕ) (d : Deserializer R D) (ps : List (ℕ × ℕ))
      → ps ≡ []
      → Reading.rounds lib narrow mods fuel d ps ≡ done (some d)
  unfolding Reading.rounds
  read_nil zero d ps e = rw e refl
  read_nil (suc fuel) d ps e = rw e refl

  fill_object-array :
      (d : Deserializer R D) (a n : ℕ) (vs : List (Json D))
      → d.doc.nodes n ≡ json_array vs
      → Reading.fill_object lib narrow mods d (a, n) ≡ Reading.fill_array lib narrow mods d a vs 0
  unfolding Reading.fill_object Reading.fill_from
  fill_object-array d a n vs e = rw (e, Reading.fill_from) refl

  make_placeholder-array :
      (d : Deserializer R D) (n : ℕ) (vs : List (Json D))
      → d.doc.nodes n ≡ json_array vs
      → Reading.make_placeholder lib d (json_node n)
        ≡ done (Reading.add_object d n (some (array [])))
  unfolding Reading.make_placeholder Reading.placeholder_at
  make_placeholder-array d n vs e = rw (e, Reading.placeholder_at) refl

  finish_empty :
      (root : ℕ) (d : Deserializer R D)
      → d.to_resolve ≡ []
      → Reading.finish lib narrow mods root (some d) ≡ done (some (some root, d.store))
  unfolding Reading.finish resolve_references
  finish_empty root d e = rw (e, resolve_references) refl

  read_once :
      (fuel : ℕ) (d d' : Deserializer R D) (p : ℕ × ℕ)
      → 0 < fuel
      → Reading.fill_object lib narrow mods (record d { to_fill = [] }) p ≡ done d'
      → d'.to_fill ≡ []
      → Reading.rounds lib narrow mods fuel d (p ∷ []) ≡ done (some d')
  unfolding Reading.rounds Reading.fill_each
  read_once zero d d' p h e w = absurd (omega arith)
  read_once (suc fuel) d d' p h e w = rw (e, ◌>>=◌) (read_nil fuel d' d'.to_fill w)

module _ {R D : Type 0} (lib : Jansson D) (mods : Mods) (widen : R → D) (narrow : D → R)
    (last : AppendsLast lib) (items : List (Item R)) (h : AllKept lib mods widen narrow items) where
  written_array :
      (asserts : Bool) (s : Store R) (root : ℕ)
      → root < s.next_address
      → s.objects root ≡ array items
      → (doc : Document D) × (create_json_value lib asserts mods widen s root
          ≡ done (some (some (json_node 0), doc)))
        × (doc.nodes 0 ≡ json_array (values_of lib mods widen narrow items h))
  unfolding create_json_value Writing.write_json Writing.create_placeholder
      Writing.first_placeholder contains
  written_array asserts s root b e =
      let start = (Writing.first_placeholder s (at_start {D = D}) root).1 in
      let node : start.doc.nodes 0 ≡ json_array [] = rw e (unfold Writing.empty_node in refl) in
      let (st, filled, holds, left) =
        fill_array-values lib mods widen narrow last asserts root s root 0 items
          (record start { to_fill = [] }) [] 0 h node in
      let container =
        ap
          (Writing.fill_container lib asserts mods widen root s (record start { to_fill = [] }) root
            0)
          e
        ∙ fill_container-array lib asserts mods widen s root (record start { to_fill = [] }) root 0
            items
        ∙ filled in
      (
        st.doc,
        rw
            (
              written_once lib asserts mods widen s root s.next_address start st 0
                  (omega (arith, b)) container left,
              and_then,
            )
            refl,
        holds,
      )

  read_array :
      (fuel : ℕ) (s : Store R) (doc : Document D) (n : ℕ)
      → 0 < fuel
      → doc.nodes n ≡ json_array (values_of lib mods widen narrow items h)
      → (s' : Store R) × (object_from_json lib narrow mods fuel s doc (some (json_node n))
          ≡ done (some (some s.next_address, s')))
        × (s'.objects s.next_address ≡ array items)
  unfolding object_from_json Reading.add_object Reading.read_root
  read_array fuel s doc n f e =
      let a = s.next_address in
      let start : Deserializer R D = record {
        store = s;
        doc = doc;
        to_fill = [];
        to_resolve = [];
      } in
      let waiting = (Reading.add_object start n (some (array []))).1 in
      let (d, filled, holds, fill, resolve) =
        fill_array-items lib mods widen narrow items (record waiting { to_fill = [] }) a [] 0 h
          (write_same s a (array [])) in
      let object = fill_object-array lib narrow mods (record waiting { to_fill = [] }) a n _ e in
      (
        d.store,
        rw (make_placeholder-array lib narrow mods start n _ e, ◌>>=◌)
            (rw (read_once lib narrow mods fuel waiting d (a, n) f (object ∙ filled) fill, ◌>>=◌)
              (finish_empty lib narrow mods a d resolve)),
        holds,
      )

  -- An array of kept items comes back: it is written to a document, and reading this document, into
  -- any store, gives the first free address, with an array of the same items in the same order.
  -- Kept are blank items, integers of 32 bits, numbers that jansson takes and that are narrowed back,
  -- texts without a zero byte that jansson takes and that do not start with `__`, and forms that
  -- are not deleted and whose string names them.
  pub object_from_json-create_json_value :
      (asserts : Bool) (s t : Store R) (root fuel : ℕ)
      → root < s.next_address
      → s.objects root ≡ array items
      → 0 < fuel
      → (r : Option (Json D) × Document D) × (create_json_value lib asserts mods widen s root
          ≡ done (some r))
        × (t' : Store R) × (object_from_json lib narrow mods fuel t r.1 r.0
            ≡ done (some (some t.next_address, t')))
        × (t'.objects t.next_address ≡ array items)
  object_from_json-create_json_value asserts s t root fuel b e f =
      let (doc, writes, node) = written_array asserts s root b e in
      let (t', reads, holds) = read_array fuel t doc 0 f node in
      ((some (json_node 0), doc), writes, t', reads, holds)
