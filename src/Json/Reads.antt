-- ===== src/Json/Reads.antt =====
-- `_object_from_json` and `resolve_references`: the call ends, and the containers that were there
-- before are as they were.
use jcontainers_ng.Common.{
  ℕ, ◌≤◌, ◌<◌, ◌≡◌, refl, ◌∙◌, Option, none, some, List, [], ◌∷◌, arith, Bool-cases, ltb, ◌⊎◌,
  Option-cases, inl, inr,
}
use jcontainers_ng.Index.{Exec, done, fault, ◌>>=◌}
use jcontainers_ng.Item.{Item, object}
use jcontainers_ng.Forms.Strings.{Mods}
use jcontainers_ng.Paths.{Key, Store, write, u_access_value}
use jcontainers_ng.Paths.Access.{get, when_found, AccessInfo, constant}
use jcontainers_ng.Paths.Walk.{Exec-cases, Ends}
use jcontainers_ng.Paths.Constant.{access-Ends}
use jcontainers_ng.Copying.Unique.{write_other}
use jcontainers_ng.Json.{Json, json_node, JsonNode, json_array, json_object, Document, Jansson}
use jcontainers_ng.Json.References.{
  assign_item, assign_each, assign_resolved, resolved_object, resolve_path, resolve_references,
}
use jcontainers_ng.Json.Outcomes.{Ensures, Returns, Returns-mono}
use jcontainers_ng.Json.Reading.{
  Deserializer, make_placeholder, placeholder_at, meta_container, find_meta, add_object, rounds,
  finish, read_root, object_from_json,
}
use jcontainers_ng.Json.Trees.{From, IsTree, DeletesOnly, AllNew, AllTargets}
use jcontainers_ng.Json.Ends.{Inv, make_placeholder-Inv}
use jcontainers_ng.Json.Rounds.{rounds-Inv}

-- What was in use before is as it was.
pub record Keeps {R : Type 0} (s s' : Store R) : Type 0 where
  pub kept : (a : ℕ) → a < s.next_address → s'.objects a ≡ s.objects a

-- The same, for every address: it was free, or its container is the same.
abbrev pub StaysBelow : {R : Type 0} → Store R → Store R → Type 0
StaysBelow s s' = (a : ℕ) → (s.next_address ≤ a) ⊎ (s'.objects a ≡ s.objects a)

abbrev pub IsFresh : {R : Type 0} → Store R → Option ℕ → Type 0
IsFresh s none = Unit
IsFresh s (some a) = s.next_address ≤ a

module _ {R : Type 0} (s : Store R) where
  assign_each-Keeps :
      (s' : Store R) (targets : List (ℕ × Key)) (o : ℕ)
      → Keeps s s'
      → AllNew s.next_address targets
      → Keeps s (assign_each s' targets o)
  unfolding assign_each
  assign_each-Keeps s' [] o k new = k
  assign_each-Keeps s' ((a, key) ∷ targets) o k new =
      assign_each-Keeps (write s' a (assign_item (s'.objects a) key (object (some o)))) targets o
        (record { kept = λ x h. write_other s' a x _ (omega (arith, h, new.0)) ∙ k.kept x h }) new.1

  assign_resolved-Keeps :
      (s' : Store R) (targets : List (ℕ × Key)) (o : Option ℕ)
      → Keeps s s'
      → AllNew s.next_address targets
      → Keeps s (assign_resolved s' targets o)
  unfolding assign_resolved
  assign_resolved-Keeps s' targets none k new = k
  assign_resolved-Keeps s' targets (some o) k new = assign_each-Keeps s' targets o k new

  module _ (mods : Mods) where
    get-Ends : (s' : Store R) (a : ℕ) (path : Option (List ℕ)) → Ends (get mods s' a path)
    unfolding get
    get-Ends s' a path = when_found-Ends _ (access-Ends mods constant s' a path)
      where
        when_found-Ends :
            (r : Exec (Option (Option AccessInfo × Store R)))
            → Ends r
            → Ends (
                when_found r
                  (λ s'. done (some none))
                  (λ info s'. done (some (u_access_value (s'.objects info.collection) info.key))))
        when_found-Ends fault e = tt
        when_found-Ends (done (some (none, s'))) e = tt
        when_found-Ends (done (some (some info, s'))) e = tt
        when_found-Ends (done none) e = e

    resolve_path-Ends :
        (s' : Store R) (root : ℕ) (path : List ℕ) → Ends (resolve_path mods s' root path)
    unfolding resolve_path
    resolve_path-Ends s' root [] = tt
    resolve_path-Ends s' root (c ∷ path) = found-Ends _ (get-Ends s' root (some (c ∷ path)))
      where
        found-Ends :
            (r : Exec (Option (Option (Item R))))
            → Ends r
            → Ends (
                r >>= λ found. elim found as (λ f. Exec (Option (Option ℕ))) [
                  | none ↦ done none
                  | some itm ↦ done (some (resolved_object itm))
                ])
        found-Ends fault e = tt
        found-Ends (done none) e = e
        found-Ends (done (some itm)) e = tt

    resolve_references-Keeps :
        (s' : Store R) (root : ℕ) (m : List (List ℕ × List (ℕ × Key)))
        → Keeps s s'
        → AllTargets s.next_address m
        → Returns (Keeps s) (resolve_references mods s' root m)
    unfolding resolve_references
    resolve_references-Keeps s' root [] k new = k
    resolve_references-Keeps s' root ((path, targets) ∷ m) k new =
        elim (Exec-cases (resolve_path mods s' root path)) [
          | inl bad ↦ rw (bad, ◌>>=◌) tt
          | inr (o, good) ↦
              let ends : Ends (done o) = rw good at (resolve_path-Ends s' root path) in
              rw (good, ◌>>=◌)
                (elim (Option-cases o) [
                  | inl out ↦ absurd (rw out at ends)
                  | inr (o', there) ↦ rw there (
                      resolve_references-Keeps (assign_resolved s' targets o') root m
                        (assign_resolved-Keeps s' targets o' k new.0) new.1)
                ])
        ]

abbrev at_first : {R D : Type 0} → Store R → Document D → Deserializer R D
at_first s doc = record { store = s; doc = doc; to_fill = []; to_resolve = [] }

abbrev pub InDocument : {D : Type 0} → Document D → Option (Json D) → Type 0
InDocument doc none = Unit
InDocument doc (some ref) = From 0 doc.next_node ref

module _ {R D : Type 0} (lib : Jansson D) (only : DeletesOnly lib) (narrow : D → R) (mods : Mods)
    (s : Store R) (doc : Document D) (tree : IsTree doc) where
  at_first-Inv : Inv s doc.next_node 0 (at_first s doc)
  at_first-Inv = record {
    room = omega arith;
    kept = λ a h. refl;
    filling = tt;
    resolving = tt;
    same_limit = refl;
    tree = tree;
    ahead = tt;
  }

  finish-Keeps :
      (root m : ℕ) (d : Deserializer R D)
      → Inv s doc.next_node m d
      → s.next_address ≤ root
      → Returns (λ r. IsFresh s r.0 × Keeps s r.1) (finish lib narrow mods root (some d))
  unfolding finish
  finish-Keeps root m d i h =
      let keeps =
        resolve_references-Keeps s mods d.store root d.to_resolve (record { kept = i.kept })
          i.resolving in
      elim (Exec-cases (resolve_references mods d.store root d.to_resolve)) [
        | inl bad ↦ rw (bad, ◌>>=◌) tt
        | inr (o, good) ↦
            rw (good, ◌>>=◌)
              (elim (Option-cases o) [
                | inl out ↦ absurd (rw out at (rw good at keeps))
                | inr (s', there) ↦ rw there (h, rw there at (rw good at keeps))
              ])
      ]

  placeholder_at-IsFresh :
      (d : Deserializer R D) (n : ℕ) (node : JsonNode D)
      → s.next_address ≤ d.store.next_address
      → Ensures (λ r. IsFresh s r.0) (placeholder_at lib d n node)
  unfolding placeholder_at add_object
  placeholder_at-IsFresh d n (json_array vs) h = h
  placeholder_at-IsFresh d n (json_object ms) h =
      elim (Exec-cases (meta_container {R = R} lib d.doc (find_meta lib ms))) [
        | inl bad ↦ rw (bad, ◌>>=◌) tt
        | inr (none, good) ↦ rw (good, ◌>>=◌) tt
        | inr (some c, good) ↦ rw (good, ◌>>=◌) h
      ]

  make_placeholder-IsFresh :
      (d : Deserializer R D) (v : Json D)
      → s.next_address ≤ d.store.next_address
      → Ensures (λ r. IsFresh s r.0) (make_placeholder lib d v)
  unfolding make_placeholder
  make_placeholder-IsFresh d (json_node n) h = placeholder_at-IsFresh d n (d.doc.nodes n) h
  make_placeholder-IsFresh d Json.json_null h = tt
  make_placeholder-IsFresh d Json.json_true h = tt
  make_placeholder-IsFresh d Json.json_false h = tt
  make_placeholder-IsFresh d (Json.json_integer z) h = tt
  make_placeholder-IsFresh d (Json.json_real x) h = tt
  make_placeholder-IsFresh d (Json.json_string t) h = tt

  read_root-Keeps :
      (fuel : ℕ) (r : Option ℕ × Deserializer R D)
      → doc.next_node ≤ fuel
      → Inv s doc.next_node 0 r.1
      → IsFresh s r.0
      → Returns (λ r'. IsFresh s r'.0 × Keeps s r'.1) (read_root lib narrow mods fuel r)
  unfolding read_root
  read_root-Keeps fuel (none, d) h i f = (tt, record { kept = i.kept })
  read_root-Keeps fuel (some root, d) h i f =
      let run =
        rounds-Inv lib only narrow mods fuel 0 d d.to_fill i i.filling i.ahead (omega (arith, h)) in
      elim (Exec-cases (rounds lib narrow mods fuel d d.to_fill)) [
        | inl bad ↦ rw (bad, ◌>>=◌) tt
        | inr (none, good) ↦ absurd (rw good at run)
        | inr (some d', good) ↦
            let (m, j) = rw good at run in rw (good, ◌>>=◌) (finish-Keeps root m d' j f)
      ]

  object_from_json-Keeps :
      (fuel : ℕ) (ref : Option (Json D))
      → doc.next_node ≤ fuel
      → InDocument doc ref
      → Returns (λ r. IsFresh s r.0 × Keeps s r.1) (object_from_json lib narrow mods fuel s doc ref)
  unfolding object_from_json
  object_from_json-Keeps fuel none h b = (tt, record { kept = λ a k. refl })
  object_from_json-Keeps fuel (some ref) h b =
      let inv = make_placeholder-Inv lib only (at_first s doc) ref at_first-Inv b in
      let fresh = make_placeholder-IsFresh (at_first s doc) ref (omega arith) in
      elim (Exec-cases (make_placeholder lib (at_first s doc) ref)) [
        | inl bad ↦ rw (bad, ◌>>=◌) tt
        | inr (r, good) ↦
            rw (good, ◌>>=◌) (read_root-Keeps fuel r h (rw good at inv) (rw good at fresh))
      ]

  StaysBelow-Keeps : (s' : Store R) → Keeps s s' → StaysBelow s s'
  StaysBelow-Keeps s' k a = elim (Bool-cases (ltb a s.next_address)) [
    | inl below ↦ inr (k.kept a (ground arith))
    | inr above ↦ inl (ground arith)
  ]

  -- With as many rounds as the document has nodes the call never runs out of fuel: it is a fault, or
  -- it answers with null or with a new container, and every container that was there before is as
  -- it was. The nodes form trees, and jansson's deletion of a key adds no pair.
  pub object_from_json-Returns :
      (fuel : ℕ) (ref : Option (Json D))
      → doc.next_node ≤ fuel
      → InDocument doc ref
      → Returns
          (λ r. IsFresh s r.0 × StaysBelow s r.1)
          (object_from_json lib narrow mods fuel s doc ref)
  object_from_json-Returns fuel ref h b =
      Returns-mono _ _ (object_from_json lib narrow mods fuel s doc ref)
        (object_from_json-Keeps fuel ref h b) (λ r k. (k.0, StaysBelow-Keeps r.1 k.1))
