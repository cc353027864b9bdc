-- ===== src/Json/Ends.antt =====
-- `json_deserializer` ends on every document whose nodes form trees, and what it writes are containers
-- of its own: the invariant of its loop.
use jcontainers_ng.Common.{
  ℕ, ◌≤◌, ◌<◌, ◌≡◌, refl, ◌∙◌, Option, none, some, arith, Bool-cases, Option-cases, inl, inr,
}
use jcontainers_ng.Index.{done, ◌>>=◌}
use jcontainers_ng.Item.{from_object}
use jcontainers_ng.Item.Text.{c_str}
use jcontainers_ng.Forms.Strings.{Mods, is_form_string}
use jcontainers_ng.Paths.{Key, Container, Store}
use jcontainers_ng.Copying.Unique.{write_other}
use jcontainers_ng.Json.{
  Json, json_null, json_true, json_false, json_integer, json_real, json_string, json_node, JsonNode,
  json_array, json_object, Jansson, is_special_string, extract_path,
}
use jcontainers_ng.Paths.Walk.{Exec-cases}
use jcontainers_ng.Json.Outcomes.{Ensures, Ensures->>=}
use jcontainers_ng.Json.Reading.{
  Deserializer, find_meta, drop_meta, add_object, meta_container, placeholder_at, make_placeholder,
  schedule_ref_resolving, item_of_string, make_item, put,
}
use jcontainers_ng.Json.Trees.{
  From, IsTree, DeletesOnly, AllNew, AllTargets, AllFrom, AllNew-append, AllFrom-append,
  AllTargets-u_write, drop_meta-IsTree,
}

-- The state while containers are filled from nodes before `n`: what was there before, in
-- `s`, is as it was; `limit` bounds the nodes.
pub record Inv {R D : Type 0} (s : Store R) (limit n : ℕ) (d : Deserializer R D) : Type 0 where
  pub room : s.next_address ≤ d.store.next_address
  pub kept : (a : ℕ) → a < s.next_address → d.store.objects a ≡ s.objects a
  pub filling : AllNew s.next_address d.to_fill
  pub resolving : AllTargets s.next_address d.to_resolve
  pub same_limit : d.doc.next_node ≡ limit
  pub tree : IsTree d.doc
  pub ahead : AllFrom n limit d.to_fill

module _ {R D : Type 0} {s : Store R} {limit n : ℕ} where
  -- A write to a new container.
  pub put-Inv :
      (d : Deserializer R D) (a : ℕ) (c : Container R)
      → Inv s limit n d
      → s.next_address ≤ a
      → Inv s limit n (put d a c)
  put-Inv d a c i b = record {
    room = i.room;
    kept = λ x h. write_other d.store a x c (omega (arith, h, b)) ∙ i.kept x h;
    filling = i.filling;
    resolving = i.resolving;
    same_limit = i.same_limit;
    tree = i.tree;
    ahead = i.ahead;
  }

  add_object-Inv :
      (d : Deserializer R D) (m : ℕ) (c : Option (Container R))
      → Inv s limit n d
      → (n ≤ m) × (m < limit)
      → Inv s limit n (add_object d m c).1
  unfolding add_object
  add_object-Inv d m none i b = i
  add_object-Inv d m (some c) i b = record {
    room = omega (arith, i.room);
    kept =
        λ x h. write_other d.store d.store.next_address x c (omega (arith, h, i.room)) ∙ i.kept x h;
    filling = AllNew-append s.next_address d.to_fill _ i.filling i.room;
    resolving = i.resolving;
    same_limit = i.same_limit;
    tree = i.tree;
    ahead = AllFrom-append n limit d.to_fill _ i.ahead b;
  }

  module _ (lib : Jansson D) (only : DeletesOnly lib) where
    placeholder_at-Inv :
        (d : Deserializer R D) (m : ℕ) (node : JsonNode D)
        → d.doc.nodes m ≡ node
        → Inv s limit n d
        → (n ≤ m) × (m < limit)
        → Ensures (λ r. Inv s limit n r.1) (placeholder_at lib d m node)
    unfolding placeholder_at
    placeholder_at-Inv d m (json_array vs) e i b = add_object-Inv d m _ i b
    placeholder_at-Inv d m (json_object ms) e i b =
        let t =
          drop_meta-IsTree lib only d.doc m ms (find_meta lib ms) i.tree (rw e at (i.tree m)) in
        let i' : Inv s limit n (record d { doc = drop_meta lib d.doc m ms (find_meta lib ms) }) =
          record {
            room = i.room;
            kept = i.kept;
            filling = i.filling;
            resolving = i.resolving;
            same_limit = t.1 ∙ i.same_limit;
            tree = t.0;
            ahead = i.ahead;
          } in
        elim (Exec-cases (meta_container {R = R} lib d.doc (find_meta lib ms))) [
          | inl bad ↦ rw (bad, ◌>>=◌) tt
          | inr (c, good) ↦ rw (good, ◌>>=◌) (add_object-Inv _ m c i' b)
        ]

    pub make_placeholder-Inv :
        (d : Deserializer R D) (v : Json D)
        → Inv s limit n d
        → From n limit v
        → Ensures (λ r. Inv s limit n r.1) (make_placeholder lib d v)
    unfolding make_placeholder
    make_placeholder-Inv d (json_node m) i b = placeholder_at-Inv d m _ refl i b
    make_placeholder-Inv d json_null i b = i
    make_placeholder-Inv d json_true i b = i
    make_placeholder-Inv d json_false i b = i
    make_placeholder-Inv d (json_integer z) i b = i
    make_placeholder-Inv d (json_real x) i b = i
    make_placeholder-Inv d (json_string t) i b = i

    pub make_item-Inv :
        (narrow : D → R) (mods : Mods) (d : Deserializer R D) (v : Json D) (a : ℕ) (key : Key)
        → Inv s limit n d
        → From n limit v
        → s.next_address ≤ a
        → Ensures (λ r. Inv s limit n r.1) (make_item lib narrow mods d v a key)
    unfolding make_item item_of_string schedule_ref_resolving
    make_item-Inv narrow mods d json_null a key i b h = i
    make_item-Inv narrow mods d json_true a key i b h = i
    make_item-Inv narrow mods d json_false a key i b h = i
    make_item-Inv narrow mods d (json_integer z) a key i b h = i
    make_item-Inv narrow mods d (json_real x) a key i b h = i
    make_item-Inv narrow mods d (json_string t) a key i b h =
        elim (Bool-cases (is_special_string (c_str t))) [
          | inl special ↦ elim (Bool-cases (is_form_string (c_str t))) [
            | inl is_form ↦ rw special (rw is_form i)
            | inr other ↦ elim (Option-cases (extract_path (c_str t))) [
              | inl no_path ↦ rw special (rw other (rw no_path i))
              | inr (path, there) ↦ rw special (
                  rw other (
                    rw there (record {
                      room = i.room;
                      kept = i.kept;
                      filling = i.filling;
                      resolving =
                          AllTargets-u_write s.next_address d.to_resolve path (a, key) i.resolving
                            h;
                      same_limit = i.same_limit;
                      tree = i.tree;
                      ahead = i.ahead;
                    })))
            ]
          ]
          | inr plain ↦ rw plain i
        ]
    make_item-Inv narrow mods d (json_node m) a key i b h =
        Ensures->>= _ _ (make_placeholder lib d (json_node m)) (λ r. done (from_object r.0, r.1))
          (make_placeholder-Inv d (json_node m) i b) (λ r j. j)
