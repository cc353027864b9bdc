-- ===== src/Objects/Invariant.antt =====
-- The ownership invariant of the object system, and how a change of one object keeps it.
use jcontainers_ng.Common.{
  ℕ, ◌+◌, ◌<◌, ◌≡◌, refl, ap, Option, none, some, List, [], ◌∷◌, arith, ◌==◌, if◌then◌else◌,
  Bool-cases, inl, inr, count,
}
use jcontainers_ng.Objects.{Object, update}

abbrev pub Heap : Type 0
Heap = ℕ → Option Object

abbrev pub items_at : Heap → ℕ → List ℕ
items_at h a = elim (h a) [ none ↦ [] | some o ↦ o.items ]

abbrev pub refs_at : Heap → ℕ → ℕ
refs_at h a = elim (h a) [ none ↦ 0 | some o ↦ o.ref_count ]

abbrev pub queued_at : Heap → ℕ → ℕ
queued_at h a = elim (h a) [ none ↦ 0 | some o ↦ o.aqueue_ref_count ]

abbrev pub live_at : Heap → ℕ → ℕ
live_at h a = elim (h a) [ none ↦ 0 | some o ↦ 1 ]

-- How many items of the listed objects refer to `b`.
unfoldable pub held : (ℕ → List ℕ) → ℕ → List ℕ → ℕ
held items b [] = 0
held items b (a ∷ as') = count b (items a) + held items b as'

-- The registry lists each object in the heap once; an object's reference count is the number of
-- items that refer to it, with the releases that are still to be made, `pending`; and its queue
-- count is the number of its entries in the queue and in the list of entries to release, `going`.
-- An address that is free counts as 0 on the left, so nothing refers to it.
pub record Inv (h : Heap) (all queue pending going : List ℕ) : Type 0 where
  pub live : (b : ℕ) → live_at h b ≡ count b all
  pub refs : (b : ℕ) → refs_at h b ≡ held (items_at h) b all + count b pending
  pub queued : (b : ℕ) → queued_at h b ≡ count b queue + count b going

-- Objects that are not listed play no part.
pub held-ext :
    (f g : ℕ → List ℕ) (b : ℕ) (as' : List ℕ)
    → ((a : ℕ) → 0 < count a as' → count b (f a) ≡ count b (g a))
    → held f b as' ≡ held g b as'
unfolding held count
held-ext f g b [] e = refl
held-ext f g b (a ∷ as') e =
    omega (arith, e a (ground arith), held-ext f g b as' (λ x p. e x (omega arith)))

-- A write at `a` that keeps the items keeps what is held.
pub held-write :
    (h : Heap) (a : ℕ) (o o' : Object) (b : ℕ) (all : List ℕ)
    → h a ≡ some o
    → o'.items ≡ o.items
    → held (items_at (update h a (some o'))) b all ≡ held (items_at h) b all
held-write h a o o' b all e s = held-ext (items_at (update h a (some o'))) (items_at h) b all λ x p.
    elim (Bool-cases (a == x)) [
      | inl same ↦
          let q : a ≡ x = ground arith in
          rw (same, items_at) (rw (← q) (rw (e, items_at) (ap (count b) s)))
      | inr other ↦ rw (other, items_at)
    ]

-- A number read off the heap after a write: the old one, moved by what the write moved it.
value-write :
    (k : Option Object → ℕ) (h : Heap) (a : ℕ) (o o' : Object) (b : ℕ)
    → h a ≡ some o
    → (n n' : ℕ) → k (h b) ≡ n
    → n' + (if a == b then k (some o) else 0) ≡ n + (if a == b then k (some o') else 0)
    → k (update h a (some o') b) ≡ n'
value-write k h a o o' b e n n' p q = elim (Bool-cases (a == b)) [
  | inl same ↦
      let z : a ≡ b = ground arith in
      let w : k (h b) ≡ k (some o) = rw (← z) (rw e) in
      let q' = rw same at q in rw same (omega (arith, w, q'))
  | inr other ↦ let q' = rw other at q in rw other (omega (arith, q'))
]

module _ {h : Heap} {all queue pending going : List ℕ} where
  pub live-some :
      {a : ℕ}
      → Inv h all queue pending going
      → 0 < refs_at h a
      → (o : Object) × (h a ≡ some o) × (0 < o.ref_count)
  live-some {a} i p = some_of_refs (h a) refl p
    where
      some_of_refs :
          (v : Option Object)
          → h a ≡ v
          → 0 < (elim v [ none ↦ 0 | some o ↦ o.ref_count ])
          → (o : Object) × (h a ≡ some o) × (0 < o.ref_count)
      some_of_refs none e q = absurd (omega arith)
      some_of_refs (some o) e q = (o, e, q)

  pub listed-some :
      {a : ℕ} → Inv h all queue pending going → 0 < count a all → (o : Object) × (h a ≡ some o)
  listed-some {a} i p = some_of_live (h a) refl (omega (arith, i.live a))
    where
      some_of_live :
          (v : Option Object)
          → h a ≡ v
          → 0 < (elim v [ none ↦ 0 | some o ↦ 1 ])
          → (o : Object) × (h a ≡ some o)
      some_of_live none e q = absurd (omega arith)
      some_of_live (some o) e q = (o, e)

  pub queued-some :
      {a : ℕ} → Inv h all queue pending going → 0 < queued_at h a → (o : Object) × (h a ≡ some o)
  queued-some {a} i p = some_of_queued (h a) refl p
    where
      some_of_queued :
          (v : Option Object)
          → h a ≡ v
          → 0 < (elim v [ none ↦ 0 | some o ↦ o.aqueue_ref_count ])
          → (o : Object) × (h a ≡ some o)
      some_of_queued none e q = absurd (omega arith)
      some_of_queued (some o) e q = (o, e)

  -- A write at one object that keeps its items, together with what its counts account for.
  pub Inv-write :
      (a : ℕ) (o o' : Object) (queue' pending' going' : List ℕ)
      → Inv h all queue pending going
      → h a ≡ some o
      → o'.items ≡ o.items
      → ((b : ℕ)
          → count b pending' + (if a == b then o.ref_count else 0)
            ≡ count b pending + (if a == b then o'.ref_count else 0))
      → ((b : ℕ)
          → count b queue' + count b going' + (if a == b then o.aqueue_ref_count else 0)
            ≡ count b queue + count b going + (if a == b then o'.aqueue_ref_count else 0))
      → Inv (update h a (some o')) all queue' pending' going'
  Inv-write a o o' queue' pending' going' i e s p q = record {
    live = λ b.
        value-write (λ v. elim v [ none ↦ 0 | some o ↦ 1 ]) h a o o' b e (count b all) (count b all)
          (i.live b) refl;
    refs = λ b. rw (held-write h a o o' b all e s) (
        value-write (λ v. elim v [ none ↦ 0 | some o ↦ o.ref_count ]) h a o o' b e
          (held (items_at h) b all + count b pending) (held (items_at h) b all + count b pending')
          (i.refs b) (omega (arith, p b)));
    queued = λ b.
        value-write (λ v. elim v [ none ↦ 0 | some o ↦ o.aqueue_ref_count ]) h a o o' b e
          (count b queue + count b going) (count b queue' + count b going') (i.queued b)
          (omega (arith, q b));
  }
