-- ===== src/Objects/Delete.antt =====
-- Deleting an object that has no owner left.
use jcontainers_ng.Common.{
  ℕ, ◌+◌, ◌≤◌, ◌<◌, ◌≡◌, refl, sym, ◌∙◌, false, none, some, List, [], ◌∷◌, ◌++◌, arith, ◌==◌,
  if◌then◌else◌, Bool-cases, inl, inr, one_if, count, count-append, leb,
}
use mathlib.Core.Path.{subst}
use jcontainers_ng.Index.{done}
use jcontainers_ng.Objects.{
  Object, Context, update, remove_address, remove_object, delete_self, is_public, total_count,
  aqueue_release_loaded, aqueue_release,
}
use jcontainers_ng.Objects.Invariant.{
  Heap, Inv, Inv-write, queued-some, held, held-ext, items_at, refs_at, queued_at, live_at,
}
use jcontainers_ng.Objects.Release.{Owned, release_each-Owned, load-some}

pub one_self : (a : ℕ) → one_if (a == a) ≡ 1
one_self a = ground arith

one_other : (a b : ℕ) → (a == b) ≡ false → one_if (b == a) ≡ 0
one_other a b h = ground arith

pub count-remove :
    (a b : ℕ) (as' : List ℕ)
    → 0 < count a as'
    → count b (remove_address a as') + one_if (b == a) ≡ count b as'
unfolding count remove_address
count-remove a b [] h = absurd (omega arith)
count-remove a b (x ∷ as') h = elim (Bool-cases (a == x)) [
  | inl same ↦ rw same (ground arith)
  | inr other ↦
      rw other (let h' = rw other at h in omega (arith, count-remove a b as' (omega (arith, h'))))
]

pub held-remove :
    (f : ℕ → List ℕ) (a b : ℕ) (as' : List ℕ)
    → 0 < count a as'
    → held f b (remove_address a as') + count b (f a) ≡ held f b as'
unfolding held count remove_address
held-remove f a b [] h = absurd (omega arith)
held-remove f a b (x ∷ as') h = elim (Bool-cases (a == x)) [
  | inl same ↦ rw same (let z : a ≡ x = ground arith in rw z (omega arith))
  | inr other ↦
      rw other (let h' = rw other at h in omega (arith, held-remove f a b as' (omega (arith, h'))))
]

-- What is held once `a` is gone.
held-free :
    (h : Heap) (all : List ℕ) (a : ℕ) (o : Object) (b : ℕ)
    → count a all ≡ 1
    → h a ≡ some o
    → held (items_at (update h a none)) b (remove_address a all) + count b o.items
      ≡ held (items_at h) b all
held-free h all a o b once e =
    let same : held (items_at (update h a none)) b (remove_address a all)
        ≡ held (items_at h) b (remove_address a all) =
      held-ext (items_at (update h a none)) (items_at h) b (remove_address a all) (λ x p.
        elim (Bool-cases (a == x)) [
          | inl hit ↦
              let z : a ≡ x = ground arith in
              absurd (
                omega (
                  arith,
                  count-remove a a all (omega arith),
                  one_self a,
                  subst (λ y. 0 < count y (remove_address a all)) (sym z) p,
                ))
          | inr other ↦ rw (other, items_at)
        ]) in
    let mine : count b (items_at h a) ≡ count b o.items = rw (e, items_at) in
    omega (arith, same, mine, held-remove (items_at h) a b all (omega arith))

module _ {h : Heap} {all queue pending : List ℕ} where
  -- Freeing an object that nothing refers to leaves its own references to be released.
  pub Inv-free :
      (a : ℕ) (o : Object) (going going' : List ℕ)
      → Inv h all queue pending going
      → h a ≡ some o
      → o.ref_count ≡ 0
      → ((b : ℕ) → count b going' + (if a == b then o.aqueue_ref_count else 0) ≡ count b going)
      → Inv (update h a none) (remove_address a all) queue (o.items ++ pending) going'
  Inv-free a o going going' i e r g =
      let once : count a all ≡ 1 = sym (i.live a) ∙ rw (e, live_at) in
      let none_held : held (items_at h) a all + count a pending ≡ 0 =
        sym (i.refs a) ∙ rw (e, refs_at) r in
      let mine : count a queue + count a going ≡ o.aqueue_ref_count =
        sym (i.queued a) ∙ rw (e, queued_at) in
      record {
        live = λ b. elim (Bool-cases (a == b)) [
          | inl same ↦
              let z : a ≡ b = ground arith in
              rw (same, live_at)
                (rw (← z) (omega (arith, count-remove a a all (omega arith), one_self a)))
          | inr other ↦
              rw (other, live_at)
                (i.live b ∙ omega (arith, count-remove a b all (omega arith), one_other a b other))
        ];
        refs = λ b. elim (Bool-cases (a == b)) [
          | inl same ↦
              let z : a ≡ b = ground arith in
              rw (same, refs_at)
                (rw (← z)
                  (omega (arith, held-free h all a o a once e, count-append a o.items pending)))
          | inr other ↦
              rw (other, refs_at)
                (i.refs b
                  ∙ omega (arith, held-free h all a o b once e, count-append b o.items pending))
        ];
        queued = λ b. elim (Bool-cases (a == b)) [
          | inl same ↦
              let z : a ≡ b = ground arith in
              rw (same, queued_at) (rw (← z) (ground (arith, g a, mine)))
          | inr other ↦
              rw (other, queued_at) (i.queued b ∙ (let q = rw other at (g b) in omega (arith, q)))
        ];
      }

-- `_delete_self` of an object that nothing refers to.
pub delete_self-Owned :
    (c : Context) (a : ℕ) (o o' : Object) (pending going going' : List ℕ)
    → Owned c pending going
    → c.heap a ≡ some o
    → o'.items ≡ o.items
    → o.ref_count ≡ 0
    → ((b : ℕ) → count b going' + (if a == b then o.aqueue_ref_count else 0) ≡ count b going)
    → (c' : Context) × (delete_self c a o' ≡ done c')
      × Owned c' pending going'
      × (c'.all_objects ≡ remove_address a c.all_objects)
unfolding delete_self remove_object
delete_self-Owned c a o o' pending going going' i e s r g =
    let freed : Inv (update c.heap a none) (remove_address a c.all_objects) c.queue
        (o'.items ++ pending) going' =
      rw s (Inv-free a o going going' i e r g) in
    elim (Bool-cases (is_public o')) [
      | inl shown ↦ rw shown (release_each-Owned _ o'.items pending going' freed)
      | inr hidden ↦ rw hidden (release_each-Owned _ o'.items pending going' freed)
    ]

aqueue_release_loaded-Owned :
    (c : Context) (a : ℕ) (o : Object) (pending going : List ℕ)
    → Owned c pending (a ∷ going)
    → c.heap a ≡ some o
    → (c' : Context) × (aqueue_release_loaded c a o ≡ done c') × Owned c' pending going
unfolding aqueue_release_loaded count
aqueue_release_loaded-Owned c a o pending going i e =
    let mine : count a c.queue + count a (a ∷ going) ≡ o.aqueue_ref_count =
      sym (i.queued a) ∙ rw (e, queued_at) in
    let self = one_self a in
    elim (Bool-cases (leb (total_count o) 1)) [
      | inl last ↦
          let total : total_count o ≤ 1 = ground arith in
          let (c', d, k, _) =
            delete_self-Owned c a o _ pending (a ∷ going) going i e refl (omega arith)
              (λ b. ground (arith, total, mine, self)) in
          rw last (c', d, k)
      | inr more ↦ rw more (
        _,
        refl,
        Inv-write a o _ c.queue pending going i e refl (λ b. refl)
            (λ b. ground (arith, mine, self)),
      )
    ]

-- The queue's release of an entry that it owns.
pub aqueue_release-Owned :
    (c : Context) (a : ℕ) (pending going : List ℕ)
    → Owned c pending (a ∷ going)
    → (c' : Context) × (aqueue_release c a ≡ done c') × Owned c' pending going
unfolding aqueue_release count
aqueue_release-Owned c a pending going i =
    let (o, e) = queued-some {a = a} i (omega (arith, i.queued a, one_self a)) in
    let (c', r, k) = aqueue_release_loaded-Owned c a o pending going i e in
    (c', rw (load-some c a o e) r, k)
