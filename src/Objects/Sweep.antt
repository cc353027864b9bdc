-- ===== src/Objects/Sweep.antt =====
-- `collectGarbage` of object/garbage_collector.h.
use jcontainers_ng.Common.{
  ℕ, ◌+◌, ◌≤◌, ◌<◌, ◌≡◌, refl, sym, ◌∙◌, true, some, List, [], ◌∷◌, ◌++◌, arith, ◌==◌, Bool-cases,
  inl, inr, count,
}
use mathlib.Core.Path.{subst}
use mathlib.Core.List.{append-nil}
use jcontainers_ng.Index.{done, ◌>>=◌}
use jcontainers_ng.Objects.{Object, Context, update, put, clear_items, remove_address, no_owners}
use jcontainers_ng.Objects.Collector.{sweep}
use jcontainers_ng.Objects.Invariant.{
  Heap, held, held-ext, items_at, refs_at, queued_at, live_at, listed-some,
}
use jcontainers_ng.Objects.Release.{Owned, load-some, release_each-Owned}
use jcontainers_ng.Objects.Delete.{delete_self-Owned, held-remove, count-remove, one_self}

nil-count : (b : ℕ) → count b [] ≡ 0
unfolding count
nil-count b = refl

-- What is held once the items of `a` are dropped.
held-clear :
    (h : Heap) (all : List ℕ) (a : ℕ) (o o' : Object) (b : ℕ)
    → count a all ≡ 1
    → h a ≡ some o
    → o'.items ≡ []
    → held (items_at (update h a (some o'))) b all + count b o.items ≡ held (items_at h) b all
unfolding count
held-clear h all a o o' b once e n =
    let f = items_at (update h a (some o')) in
    let same : held f b (remove_address a all) ≡ held (items_at h) b (remove_address a all) =
      held-ext f (items_at h) b (remove_address a all) (λ x p. elim (Bool-cases (a == x)) [
        | inl hit ↦
            let z : a ≡ x = ground arith in
            absurd (
              omega (
                arith,
                count-remove a a all (omega arith),
                one_self a,
                subst (λ y. 0 < count y (remove_address a all)) (sym z) p,
              ))
        | inr other ↦ rw (other, items_at)
      ]) in
    let self : (a == a) ≡ true = ground arith in
    let mine : count b (items_at h a) ≡ count b o.items = rw (e, items_at) in
    let gone : count b (f a) ≡ 0 = rw (self, items_at) (rw n) in
    omega (
      arith,
      same,
      mine,
      gone,
      held-remove (items_at h) a b all (omega arith),
      held-remove f a b all (omega arith),
    )

clear_items-Owned :
    (c : Context) (a : ℕ) (o : Object)
    → Owned c [] []
    → c.heap a ≡ some o
    → (c' : Context) × (clear_items c a ≡ done c')
      × Owned c' [] []
      × (c'.all_objects ≡ c.all_objects)
unfolding clear_items
clear_items-Owned c a o i e =
    let o' = record o { items = [] } in
    let once : count a c.all_objects ≡ 1 = sym (i.live a) ∙ rw (e, live_at) in
    let cleared : Owned (put c a o') (o.items ++ []) [] = record {
      live = λ b. elim (Bool-cases (a == b)) [
        | inl same ↦ let z : a ≡ b = ground arith in rw (same, live_at) (rw (← z) (sym once))
        | inr other ↦ rw (other, live_at) (i.live b)
      ];
      refs = λ b.
          let k = held-clear c.heap c.all_objects a o o' b once e refl in
          let n : count b (o.items ++ []) ≡ count b o.items = rw append-nil in
          elim (Bool-cases (a == b)) [
            | inl same ↦
                let z : a ≡ b = ground arith in
                let r : refs_at c.heap b ≡ o.ref_count = rw (← z) (rw (e, refs_at)) in
                rw (same, refs_at) (omega (arith, k, n, r, i.refs b, nil-count b))
            | inr other ↦ rw (other, refs_at) (i.refs b ∙ omega (arith, k, n, nil-count b))
          ];
      queued = λ b. elim (Bool-cases (a == b)) [
        | inl same ↦
            let z : a ≡ b = ground arith in
            let r : queued_at c.heap b ≡ o.aqueue_ref_count = rw (← z) (rw (e, queued_at)) in
            rw (same, queued_at) (sym r ∙ i.queued b)
        | inr other ↦ rw (other, queued_at) (i.queued b)
      ];
    } in
    rw (load-some c a o e) (release_each-Owned (put c a o') o.items [] [] cleared)

-- Sweeping a list of distinct objects that are in the heap.
pub sweep-Owned :
    (c : Context) (as' : List ℕ) (n : ℕ)
    → Owned c [] []
    → ((b : ℕ) → count b as' ≤ count b c.all_objects)
    → (m : ℕ) × (c' : Context) × (sweep c as' n ≡ done (m, c'))
      × Owned c' [] []
      × ((b : ℕ) → count b as' ≡ 0 → count b c'.all_objects ≡ count b c.all_objects)
unfolding sweep count
sweep-Owned c [] n i s = (n, c, refl, i, λ b z. refl)
sweep-Owned c (a ∷ as') n i s =
    let (o, e) = listed-some {a = a} i (omega (arith, s a, one_self a)) in
    elim (Bool-cases (no_owners o)) [
      | inl free ↦
          let (c', d, k, l) =
            delete_self-Owned c a o o [] [] [] i e refl (ground arith) (λ b. ground arith) in
          let removed =
            λ (b : ℕ). count-remove a b c.all_objects (omega (arith, s a, one_self a)) in
          let (m, c'', d', k', kept) =
            sweep-Owned c' as' n k (λ b. rw l (omega (arith, s b, removed b))) in
          (
            m,
            c'',
            rw (load-some c a o e) (rw (free, ◌>>=◌) (rw (d, ◌>>=◌) d')),
            k',
            λ b z. kept b (omega arith) ∙ rw l (omega (arith, removed b)),
          )
      | inr owned ↦
          let (c', d, k, l) = clear_items-Owned c a o i e in
          let (m, c'', d', k', kept) =
            sweep-Owned c' as' (n + 1) k (λ b. rw l (omega (arith, s b))) in
          (
            m,
            c'',
            rw (load-some c a o e) (rw (owned, ◌>>=◌) (rw (d, ◌>>=◌) d')),
            k',
            λ b z. kept b (omega arith) ∙ rw l refl,
          )
    ]
