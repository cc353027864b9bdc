-- ===== src/Paths/Fold.antt =====
-- `path_resolving::resolve` on a collection operator, with the operators of collections/operators.h.
use jcontainers_ng.Common.{
  ℕ, ◌≤◌, ◌<◌, ◌≡◌, refl, ap, ◌∙◌, true, Option, none, some, List, [], ◌∷◌, arith, length, ◌==◌,
}
use jcontainers_ng.Index.{Exec, done, ◌>>=◌}
use jcontainers_ng.Item.{Reals, Item, blank, object_of}
use jcontainers_ng.Item.Operators.{fold_items}
use jcontainers_ng.Forms.Strings.{Mods}
use jcontainers_ng.Paths.{array, Store}
use jcontainers_ng.Paths.Parse.{string_path_length_max}
use jcontainers_ng.Paths.Segments.{none_pass}
use jcontainers_ng.Paths.Constant.{find_if-none, take_all, drop_all}
use jcontainers_ng.Paths.Resolve.{
  shared, Visits, get_node, operators, find_operator, apply_operator, operator_name, to_visit,
  deref, resolve_item, resolve_each, operator_rule, enter, proceed, after_operator, round, run,
  resolve,
}
use jcontainers_ng.Paths.Solve.{resolve-enter, first, root-object}

module _ (r : Reals) where
  open r use {Real}

  -- Items that refer to no object.
  abbrev pub ArePlain : List (Item Real) → Type 0
  ArePlain [] = Unit
  ArePlain (itm ∷ items) = (object_of itm ≡ none) × ArePlain items

  abbrev visited : List (Item Real) → Visits r
  visited [] = []
  visited (itm ∷ items) = some itm ∷ visited items

  apply_operator-visited :
      (func : Item Real → Item Real → Item Real) (items : List (Item Real)) (state : Item Real)
      → apply_operator r func (visited items) state ≡ fold_items r func items state
  unfolding apply_operator fold_items
  apply_operator-visited func [] state = refl
  apply_operator-visited func (itm ∷ items) state =
      apply_operator-visited func items (func itm state)

  operator_name-named :
      (name : List ℕ)
      → 0 < length name
      → none_pass (λ b. b == b'.') name ≡ true
      → operator_name r (b'@' ∷ name) ≡ some (name, [])
  unfolding operator_name
  operator_name-named [] h p = absurd (omega arith)
  operator_name-named (c ∷ name) h p =
      let found = find_if-none (λ b. b == b'.') (c ∷ name) p in rw found (ap some found)

  module _ (mods : Mods) (s : Store Real) where
    resolve_each-visited :
        (resolve_object : ℕ → List ℕ → Exec (Option (Visits r))) (items : List (Item Real))
        → ArePlain items
        → resolve_each r mods s resolve_object items [] ≡ done (some (visited items))
    unfolding resolve_each resolve_item
    resolve_each-visited resolve_object [] p = refl
    resolve_each-visited resolve_object (itm ∷ items) p =
        let here : resolve_item r mods s resolve_object itm [] ≡ done (some (some itm ∷ [])) =
          rw (p.0, resolve_item) refl in
        rw (here, ◌>>=◌) (rw (resolve_each-visited resolve_object items p.1, ◌>>=◌) refl)

    deref-root :
        (target : ℕ) (path : List ℕ)
        → deref r mods s (first r mods target path) ≡ done (some target)
    unfolding deref
    deref-root target path = rw (root-object r mods s target, deref) refl

    -- A path of an operator's name alone, without a zero byte, of at most 1024 bytes, on an array
    -- without objects: `resolve` visits once, with the operator folded over the items in order.
    pub resolve-operator :
        (target : ℕ) (name : List ℕ) (func : Item Real → Item Real → Item Real)
        (items : List (Item Real))
        → 0 < length name
        → none_pass (λ b. b == b'.') name ≡ true
        → none_pass (λ c. c == 0) (b'@' ∷ name) ≡ true
        → length (b'@' ∷ name) ≤ string_path_length_max
        → find_operator r (operators r) name ≡ some func
        → s.objects target ≡ array items
        → ArePlain items
        → resolve r mods s (some target) (some (b'@' ∷ name))
          ≡ done (some (some (fold_items r func items blank) ∷ []))
    unfolding enter run round operator_rule after_operator proceed get_node to_visit
    resolve-operator target name func items h p z b known e plain =
        let path = b'@' ∷ name in
        let call = enter r mods s (run r mods s (length name)) in
        let tried : operator_rule r mods s call [] path (first r mods target path)
            ≡ done (
                some (
                  some (record {
                    path = some [];
                    node_getter = shared (fold_items r func items blank);
                    collection = none;
                  }))) =
          rw (operator_name-named name h p, operator_rule)
            (rw (deref-root target path, ◌>>=◌)
              (rw known (
                rw (e, to_visit)
                  (rw (resolve_each-visited call items plain, ◌>>=◌)
                    (rw (apply_operator-visited func items blank) refl))))) in
        resolve-enter r mods s target path z
        ∙ rw (drop_all string_path_length_max path b, enter)
            (rw (take_all string_path_length_max path b) (rw (tried, ◌>>=◌) refl))
