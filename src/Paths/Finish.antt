-- ===== src/Paths/Finish.antt =====
-- The loop of `path_resolving::resolve` and the calls that its operators make end.
use jcontainers_ng.Common.{
  ℕ, zero, suc, ◌+◌, ◌≤◌, ◌<◌, ◌≡◌, refl, ap, ◌∙◌, Option, none, some, List, [], ◌∷◌, ◌++◌, arith,
  length, drop, Option-cases, inl, inr,
}
use jcontainers_ng.Index.{Exec, done, fault, ◌>>=◌}
use jcontainers_ng.Item.{Reals, Item, object_of}
use jcontainers_ng.Item.Text.{c_str}
use jcontainers_ng.Forms.Strings.{Mods}
use jcontainers_ng.Paths.{Store}
use jcontainers_ng.Paths.Parse.{string_path_length_max}
use jcontainers_ng.Paths.Segments.{left}
use jcontainers_ng.Paths.Walk.{Ends, Exec-cases}
use jcontainers_ng.Paths.Resolve.{
  State, Visits, get_node, operators, find_operator, operator_name, map_name, index_text, to_visit,
  index_node, deref, map_rule, array_rule, other_rules, resolve_item, resolve_each, operator_rule,
  enter, proceed, after_rules, after_operator, round, run, resolve,
}
use jcontainers_ng.Paths.Solve.{length-append}
use jcontainers_ng.Paths.Rules.{
  take-drop, Ends-cases, operator_name-shorter, map_name-shorter, index_text-shorter,
  to_visit-shorter,
}

module _ (r : Reals) where
  open r use {Real}

  module _ (mods : Mods) (s : Store Real) where
    resolve_item-Ends :
        (visit : ℕ → List ℕ → Exec (Option (Visits r))) (itm : Item Real) (cpath : List ℕ)
        → ((o : ℕ) → Ends (visit o cpath))
        → Ends (resolve_item r mods s visit itm cpath)
    unfolding resolve_item
    resolve_item-Ends visit itm cpath h = elim (Option-cases (object_of itm)) [
      | inr (o, refers) ↦ rw (refers, resolve_item) (h o)
      | inl plain ↦ rw (plain, resolve_item) (at_end cpath)
    ]
      where
        at_end :
            (cpath : List ℕ)
            → Ends (elim cpath as (λ x. Exec (Option (Visits r))) [
              | [] ↦ done (some (some itm ∷ []))
              | c ∷ rest ↦ done (some [])
            ])
        at_end [] = tt
        at_end (c ∷ rest) = tt

    -- The items are visited to their end when each object is.
    resolve_each-Ends :
        (visit : ℕ → List ℕ → Exec (Option (Visits r))) (items : List (Item Real)) (cpath : List ℕ)
        → ((o : ℕ) → Ends (visit o cpath))
        → Ends (resolve_each r mods s visit items cpath)
    unfolding resolve_each
    resolve_each-Ends visit [] cpath h = tt
    resolve_each-Ends visit (itm ∷ items) cpath h =
        elim (Ends-cases (resolve_item r mods s visit itm cpath)
          (resolve_item-Ends visit itm cpath h)) [
            | inl bad ↦ rw (bad, ◌>>=◌) tt
            | inr (xs, e) ↦
                elim (Ends-cases (resolve_each r mods s visit items cpath)
                  (resolve_each-Ends visit items cpath h)) [
                    | inl bad ↦ rw (e, ◌>>=◌) (rw (bad, ◌>>=◌) tt)
                    | inr (ys, f) ↦ rw (e, ◌>>=◌) (rw (f, ◌>>=◌) tt)
                  ]
          ]

    -- An operator's rule ends, and leaves nothing of the path when it succeeds.
    abbrev OperatorEnds : Exec (Option (Option (State r))) → Type 0
    OperatorEnds fault = Unit
    OperatorEnds (done none) = ⊥
    OperatorEnds (done (some none)) = Unit
    OperatorEnds (done (some (some next))) = next.path ≡ some []

    -- An operator's calls end when each call on what is left of the path does.
    operator_rule-Ends :
        (visit : ℕ → List ℕ → Exec (Option (Visits r))) (tail path : List ℕ) (st : State r)
        → ((o : ℕ) (cpath : List ℕ)
            → length cpath + 1 < length path + length tail
            → Ends (visit o cpath))
        → OperatorEnds (operator_rule r mods s visit tail path st)
    unfolding operator_rule
    operator_rule-Ends visit tail path st h = elim (Option-cases (operator_name r path)) [
      | inl other ↦ rw (other, operator_rule) tt
      | inr (e, named) ↦ elim (Exec-cases (deref r mods s st)) [
        | inl bad ↦ rw (named, operator_rule) (rw (bad, ◌>>=◌) tt)
        | inr (o, got) ↦ elim (Option-cases o) [
          | inl nothing ↦ rw (named, operator_rule) (rw (got ∙ ap (λ z. done z) nothing, ◌>>=◌) tt)
          | inr (c, there) ↦ elim (Option-cases (find_operator r (operators r) e.0)) [
            | inl unknown ↦
                rw (named, operator_rule) (rw (got ∙ ap (λ z. done z) there, ◌>>=◌) (rw unknown tt))
            | inr (func, known) ↦
                let v = to_visit r (s.objects c) e.1 in
                let ended = resolve_each-Ends visit v.0 (v.1 ++ tail) (λ o. h o (v.1 ++ tail) (
                  omega (
                    arith,
                    length-append v.1 tail,
                    to_visit-shorter r (s.objects c) e.1,
                    operator_name-shorter r path e named,
                  ))) in
                elim (Ends-cases (resolve_each r mods s visit v.0 (v.1 ++ tail)) ended) [
                  | inl bad ↦
                      rw (named, operator_rule)
                        (rw (got ∙ ap (λ z. done z) there, ◌>>=◌) (rw known (rw (bad, ◌>>=◌) tt)))
                  | inr (visits, found) ↦
                      rw (named, operator_rule)
                        (rw (got ∙ ap (λ z. done z) there, ◌>>=◌)
                          (rw known (rw (found, ◌>>=◌) refl)))
                ]
          ]
        ]
      ]
    ]

    -- Another rule that succeeds leaves less of the path.
    abbrev Shortens : List ℕ → Exec (Option (State r)) → Type 0
    Shortens path fault = Unit
    Shortens path (done none) = Unit
    Shortens path (done (some next)) = left next.path < length path

    array_rule-Shortens :
        (tail path : List ℕ) (st : State r) → Shortens path (array_rule r mods s tail path st)
    unfolding array_rule
    array_rule-Shortens tail path st = elim (Option-cases (index_text r path)) [
      | inl other ↦ rw (other, array_rule) tt
      | inr (e, text) ↦ elim (Option-cases (index_node r mods s (drop 1 path ++ tail) e.0)) [
        | inl bad ↦ rw (text, array_rule) (rw bad tt)
        | inr (node, index) ↦ elim (Exec-cases (deref r mods s st)) [
          | inl missing ↦ rw (text, array_rule) (rw index (rw (missing, ◌>>=◌) tt))
          | inr (o, got) ↦ elim (Option-cases o) [
            | inl nothing ↦
                rw (text, array_rule) (rw index (rw (got ∙ ap (λ z. done z) nothing, ◌>>=◌) tt))
            | inr (c, there) ↦
                rw (text, array_rule)
                  (rw index
                    (rw (got ∙ ap (λ z. done z) there, ◌>>=◌) (index_text-shorter r path e text)))
          ]
        ]
      ]
    ]

    other_rules-Shortens :
        (tail path : List ℕ) (st : State r) → Shortens path (other_rules r mods s tail path st)
    unfolding other_rules map_rule
    other_rules-Shortens tail path st = elim (Option-cases (map_name r path)) [
      | inl other ↦ rw (other, other_rules, map_rule) (array_rule-Shortens tail path st)
      | inr (e, named) ↦ elim (Option-cases (get_node r s st.node_getter st.collection)) [
        | inl missing ↦
            rw (named, other_rules, map_rule) (rw missing (array_rule-Shortens tail path st))
        | inr (itm, there) ↦ elim (Option-cases (object_of itm)) [
          | inl plain ↦
              rw (named, other_rules, map_rule)
                (rw there (rw plain (array_rule-Shortens tail path st)))
          | inr (c, refers) ↦
              let shorter = map_name-shorter r path e named in
              rw (named, other_rules, map_rule) (rw there (rw refers (omega (arith, shorter))))
        ]
      ]
    ]

    module _ (fuel : ℕ)
        (ends : (tail : List ℕ) (st : State r)
          → 0 < left st.path
          → left st.path + length tail ≤ fuel
          → Ends (run r mods s fuel tail st)) where
      enter-Ends :
          (o : ℕ) (cpath : List ℕ)
          → length cpath ≤ fuel
          → Ends (enter r mods s (run r mods s fuel) o cpath)
      unfolding enter
      enter-Ends o [] h = tt
      enter-Ends o (c ∷ rest) h =
          ends (drop string_path_length_max (c ∷ rest)) _ (omega arith)
            (omega (arith, take-drop string_path_length_max (c ∷ rest)))

      proceed-Ends :
          (tail : List ℕ) (next : State r)
          → left next.path + length tail ≤ fuel
          → Ends (proceed r mods s (run r mods s fuel) tail next)
      unfolding proceed
      proceed-Ends tail next h = go next.path refl
        where
          go :
              (path : Option (List ℕ))
              → next.path ≡ path
              → Ends (elim path as (λ x. Exec (Option (Visits r))) [
                | none ↦ run r mods s fuel tail next
                | some [] ↦ done (some (get_node r s next.node_getter next.collection ∷ []))
                | some (c ∷ rest) ↦ run r mods s fuel tail next
              ])
          go none e = ends tail next (rw e (omega arith)) h
          go (some []) e = tt
          go (some (c ∷ rest)) e = ends tail next (rw e (omega arith)) h

      after_rules-Ends :
          (tail path : List ℕ) (found : Exec (Option (State r)))
          → length path + length tail ≤ suc fuel
          → Shortens path found
          → Ends (found >>= after_rules r mods s (run r mods s fuel) tail)
      unfolding after_rules
      after_rules-Ends tail path fault b h = tt
      after_rules-Ends tail path (done none) b h = tt
      after_rules-Ends tail path (done (some next)) b h = proceed-Ends tail next (omega arith)

      after_operator-Ends :
          (tail path : List ℕ) (st : State r) (tried : Exec (Option (Option (State r))))
          → length path + length tail ≤ suc fuel
          → OperatorEnds tried
          → Ends (tried >>= after_operator r mods s (run r mods s fuel) tail path st)
      unfolding after_operator proceed
      after_operator-Ends tail path st fault b h = tt
      after_operator-Ends tail path st (done none) b h = absurd h
      after_operator-Ends tail path st (done (some none)) b h =
          after_rules-Ends tail path (other_rules r mods s tail path st) b
            (other_rules-Shortens tail path st)
      after_operator-Ends tail path st (done (some (some next))) b h = rw (h, proceed) tt

      round-Ends :
          (tail : List ℕ) (st : State r)
          → left st.path + length tail ≤ suc fuel
          → Ends (round r mods s (run r mods s fuel) tail st)
      unfolding round
      round-Ends tail st h = elim (Option-cases st.path) [
        | inl past ↦ rw (past, round) tt
        | inr (path, there) ↦
            let b : length path + length tail ≤ suc fuel = rw there at h in
            let call = enter r mods s (run r mods s fuel) in
            rw (there, round)
              (after_operator-Ends tail path st (operator_rule r mods s call tail path st) b (
                operator_rule-Ends call tail path st
                  (λ o cpath k. enter-Ends o cpath (omega arith))))
      ]

    run-Ends :
        (fuel : ℕ) (tail : List ℕ) (st : State r)
        → 0 < left st.path
        → left st.path + length tail ≤ fuel
        → Ends (run r mods s fuel tail st)
    unfolding run
    run-Ends zero tail st p h = absurd (omega arith)
    run-Ends (suc fuel) tail st p h = round-Ends fuel (run-Ends fuel) tail st h

    -- Whatever the path, `resolve` ends: by a read through a null pointer or past the path's end, or
    -- with its visits. The fuel never runs out.
    pub resolve-Ends :
        (collection : Option ℕ) (cpath : Option (List ℕ)) → Ends (resolve r mods s collection cpath)
    unfolding resolve
    resolve-Ends none cpath = tt
    resolve-Ends (some collection) none = tt
    resolve-Ends (some collection) (some cpath) =
        enter-Ends (length (c_str cpath)) (run-Ends (length (c_str cpath))) collection (c_str cpath)
          (omega arith)
