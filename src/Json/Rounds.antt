-- ===== src/Json/Rounds.antt =====
-- `_object_from_json`: its loop ends and its references are resolved, and the containers that were
-- there before are as they were.
use jcontainers_ng.Common.{ℕ, zero, suc, ◌+◌, ◌≤◌, Option, none, some, List, [], ◌∷◌, arith, pos}
use jcontainers_ng.Index.{done}
use jcontainers_ng.Forms.Strings.{Mods}
use jcontainers_ng.Paths.{Key, int_key, Store}
use jcontainers_ng.Json.{Json, json_node, JsonNode, json_array, json_object, Jansson}
use jcontainers_ng.Json.References.{read_key, push, assign_item}
use jcontainers_ng.Json.Outcomes.{Ensures, Returns, Ensures->>=, Returns->>=}
use jcontainers_ng.Json.Reading.{
  Deserializer, make_item, put, fill_array, fill_member, fill_members, fill_from, fill_object,
  fill_each, rounds,
}
use jcontainers_ng.Json.Trees.{From, AllPairs, AllValues, NodeFrom, DeletesOnly, AllNew, AllFrom}
use jcontainers_ng.Json.Ends.{Inv, put-Inv, make_item-Inv}

From-le : {D : Type 0} {m n : ℕ} (limit : ℕ) (v : Json D) → m ≤ n → From n limit v → From m limit v
From-le limit (json_node k) h b = (omega (arith, h, b.0), b.1)
From-le limit Json.json_null h b = tt
From-le limit Json.json_true h b = tt
From-le limit Json.json_false h b = tt
From-le limit (Json.json_integer z) h b = tt
From-le limit (Json.json_real x) h b = tt
From-le limit (Json.json_string t) h b = tt

AllValues-le :
    {D : Type 0} {m n : ℕ} (limit : ℕ) (vs : List (Json D))
    → m ≤ n
    → AllValues (From n limit) vs
    → AllValues (From m limit) vs
AllValues-le limit [] h b = tt
AllValues-le limit (v ∷ vs) h b = (From-le limit v h b.0, AllValues-le limit vs h b.1)

AllPairs-le :
    {D : Type 0} {m n : ℕ} (limit : ℕ) (ms : List (List ℕ × Json D))
    → m ≤ n
    → AllPairs (From n limit) ms
    → AllPairs (From m limit) ms
AllPairs-le limit [] h b = tt
AllPairs-le limit (p ∷ ms) h b = (From-le limit p.1 h b.0, AllPairs-le limit ms h b.1)

NodeFrom-le :
    {D : Type 0} {m n : ℕ} (limit : ℕ) (node : JsonNode D)
    → m ≤ n
    → NodeFrom n limit node
    → NodeFrom m limit node
NodeFrom-le limit (json_array vs) h b = AllValues-le limit vs h b
NodeFrom-le limit (json_object ms) h b = AllPairs-le limit ms h b

module _ {R D : Type 0} (lib : Jansson D) (only : DeletesOnly lib) (narrow : D → R) (mods : Mods)
    {s : Store R} {limit : ℕ} where
  module _ {n : ℕ} where
    fill_array-Inv :
        (d : Deserializer R D) (a : ℕ) (vs : List (Json D)) (index : ℕ)
        → Inv s limit n d
        → AllValues (From n limit) vs
        → s.next_address ≤ a
        → Ensures (Inv s limit n) (fill_array lib narrow mods d a vs index)
    unfolding fill_array
    fill_array-Inv d a [] index i b h = i
    fill_array-Inv d a (v ∷ vs) index i b h =
        Ensures->>= _ _ (make_item lib narrow mods d v a (int_key (pos index)))
          (λ r.
            fill_array lib narrow mods (put r.1 a (push (r.1.store.objects a) r.0)) a vs
              (index + 1))
          (make_item-Inv lib only narrow mods d v a _ i b.0 h)
          (λ r j.
            fill_array-Inv (put r.1 a (push (r.1.store.objects a) r.0)) a vs (index + 1)
              (put-Inv r.1 a _ j h) b.1 h)

    fill_member-Inv :
        (d : Deserializer R D) (a : ℕ) (key : Option Key) (v : Json D)
        → Inv s limit n d
        → From n limit v
        → s.next_address ≤ a
        → Ensures (Inv s limit n) (fill_member lib narrow mods d a key v)
    unfolding fill_member
    fill_member-Inv d a none v i b h = i
    fill_member-Inv d a (some key) v i b h =
        Ensures->>= _ _ (make_item lib narrow mods d v a key)
          (λ r. done (put r.1 a (assign_item (r.1.store.objects a) key r.0)))
          (make_item-Inv lib only narrow mods d v a key i b h) (λ r j. put-Inv r.1 a _ j h)

    fill_members-Inv :
        (d : Deserializer R D) (a : ℕ) (ms : List (List ℕ × Json D))
        → Inv s limit n d
        → AllPairs (From n limit) ms
        → s.next_address ≤ a
        → Ensures (Inv s limit n) (fill_members lib narrow mods d a ms)
    unfolding fill_members
    fill_members-Inv d a [] i b h = i
    fill_members-Inv d a ((key, v) ∷ ms) i b h =
        Ensures->>= _ _ (fill_member lib narrow mods d a (read_key mods (d.store.objects a) key) v)
          (λ d'. fill_members lib narrow mods d' a ms) (fill_member-Inv d a _ v i b.0 h)
          (λ d' j. fill_members-Inv d' a ms j b.1 h)

    fill_from-Inv :
        (d : Deserializer R D) (a : ℕ) (node : JsonNode D)
        → Inv s limit n d
        → NodeFrom n limit node
        → s.next_address ≤ a
        → Ensures (Inv s limit n) (fill_from lib narrow mods d a node)
    unfolding fill_from
    fill_from-Inv d a (json_array vs) i b h = fill_array-Inv d a vs 0 i b h
    fill_from-Inv d a (json_object ms) i b h = fill_members-Inv d a ms i b h

  fill_each-Inv :
      (n : ℕ) (d : Deserializer R D) (ps : List (ℕ × ℕ))
      → Inv s limit (suc n) d
      → AllNew s.next_address ps
      → AllFrom n limit ps
      → Ensures (Inv s limit (suc n)) (fill_each lib narrow mods d ps)
  unfolding fill_each fill_object
  fill_each-Inv n d [] i new from = i
  fill_each-Inv n d (p ∷ ps) i new from =
      let values = rw i.same_limit at (i.tree p.1) in
      let up : suc n ≤ suc p.1 = omega (arith, from.0.0) in
      Ensures->>= _ _ (fill_object lib narrow mods d p) (λ d'. fill_each lib narrow mods d' ps)
        (fill_from-Inv d p.0 (d.doc.nodes p.1) i (NodeFrom-le limit (d.doc.nodes p.1) up values)
          new.0)
        (λ d' j. fill_each-Inv n d' ps j new.1 from.1)

  -- Each round is about nodes with greater numbers, so as many rounds as there are nodes are enough.
  pub rounds-Inv :
      (fuel n : ℕ) (d : Deserializer R D) (ps : List (ℕ × ℕ))
      → Inv s limit n d
      → AllNew s.next_address ps
      → AllFrom n limit ps
      → limit ≤ fuel + n
      → Returns (λ d'. (m : ℕ) × Inv s limit m d') (rounds lib narrow mods fuel d ps)
  unfolding rounds
  rounds-Inv zero n d [] i new from h = (n, i)
  rounds-Inv (suc fuel) n d [] i new from h = (n, i)
  rounds-Inv zero n d (p ∷ ps) i new from h = absurd (omega (arith, from.0.0, from.0.1))
  rounds-Inv (suc fuel) n d (p ∷ ps) i new from h =
      let empty : Inv s limit (suc n) (record d { to_fill = [] }) = record {
        room = i.room;
        kept = i.kept;
        filling = tt;
        resolving = i.resolving;
        same_limit = i.same_limit;
        tree = i.tree;
        ahead = tt;
      } in
      Returns->>= _ _ (fill_each lib narrow mods (record d { to_fill = [] }) (p ∷ ps))
        (λ d'. rounds lib narrow mods fuel d' d'.to_fill)
        (fill_each-Inv n _ (p ∷ ps) empty new from)
        (λ d' j. rounds-Inv fuel (suc n) d' d'.to_fill j j.filling j.ahead (omega (arith, h)))
