-- ===== src/Objects/Release.antt =====
-- `release` of object/object_base.hpp, for one reference and for a list of them.
use jcontainers_ng.Common.{
  ℕ, ◌+◌, ◌-◌, ◌<◌, ◌≡◌, refl, ◌∙◌, Bool, true, some, List, [], ◌∷◌, ◌++◌, arith, ◌==◌,
  if◌then◌else◌, Bool-cases, inl, inr, count, count-append, ltb, ◌&&◌,
}
use jcontainers_ng.Index.{done, ◌>>=◌}
use jcontainers_ng.Objects.{
  Object, Context, put, load, queue_prolong, release_loaded, release, release_each, is_in_aqueue,
  is_public, no_owners,
}
use jcontainers_ng.Objects.Invariant.{Inv, Inv-write, live-some}

-- The invariant of a context between calls, with the work that a call has left.
abbrev pub Owned : Context → List ℕ → List ℕ → Type 0
Owned c pending going = Inv c.heap c.all_objects c.queue pending going

pub load-some : (c : Context) (a : ℕ) (o : Object) → c.heap a ≡ some o → load c a ≡ done o
unfolding load
load-some c a o e = rw (e, load)

-- Pushing an object that was written: `k` references to it are settled.
queue_prolong-Owned :
    (c : Context) (a : ℕ) (o o' : Object) (public : Bool) (pending pending' going : List ℕ)
    → Owned c pending going
    → c.heap a ≡ some o
    → o'.items ≡ o.items
    → o'.aqueue_ref_count ≡ o.aqueue_ref_count
    → ((b : ℕ)
        → count b pending' + (if a == b then o.ref_count else 0)
          ≡ count b pending + (if a == b then o'.ref_count else 0))
    → Owned (queue_prolong c a o' public) pending' going
unfolding queue_prolong count
queue_prolong-Owned c a o o' public pending pending' going i e s q p =
    elim (Bool-cases (is_in_aqueue o')) [
      | inl inside ↦
          rw inside (Inv-write a o _ c.queue pending' going i e s p (λ b. ground (arith, q)))
      | inr outside ↦ rw outside (
          Inv-write a o _ (c.queue ++ (a ∷ [])) pending' going i e s p
            (λ b. ground (arith, q, count-append b c.queue (a ∷ []))))
    ]

pub put-Owned :
    (c : Context) (a : ℕ) (o o' : Object) (pending pending' going : List ℕ)
    → Owned c pending going
    → c.heap a ≡ some o
    → o'.items ≡ o.items
    → o'.aqueue_ref_count ≡ o.aqueue_ref_count
    → ((b : ℕ)
        → count b pending' + (if a == b then o.ref_count else 0)
          ≡ count b pending + (if a == b then o'.ref_count else 0))
    → Owned (put c a o') pending' going
put-Owned c a o o' pending pending' going i e s q p =
    Inv-write a o o' c.queue pending' going i e s p (λ b. ground (arith, q))

release_loaded-Owned :
    (c : Context) (a : ℕ) (o : Object) (pending going : List ℕ)
    → Owned c (a ∷ pending) going
    → c.heap a ≡ some o
    → 0 < o.ref_count
    → Owned (release_loaded c a o) pending going
unfolding release_loaded count
release_loaded-Owned c a o pending going i e h =
    let o' = record o { ref_count = o.ref_count - 1 } in
    let settled : (b : ℕ)
        → count b pending + (if a == b then o.ref_count else 0)
          ≡ count b (a ∷ pending) + (if a == b then o'.ref_count else 0) =
      λ b. ground arith in
    let ok : ltb 0 o.ref_count ≡ true = ground arith in
    rw ok (elim (Bool-cases (no_owners o' && o.initialized)) [
      | inl gone ↦ rw gone (
          queue_prolong-Owned c a o o' (is_public o') (a ∷ pending) pending going i e refl refl
            settled)
      | inr kept ↦ rw kept (put-Owned c a o o' (a ∷ pending) pending going i e refl refl settled)
    ])

release_loaded-all :
    (c : Context) (a : ℕ) (o : Object) → (release_loaded c a o).all_objects ≡ c.all_objects
unfolding release_loaded queue_prolong
release_loaded-all c a o = ground arith

-- A reference that is owed can be released.
pub release-Owned :
    (c : Context) (a : ℕ) (pending going : List ℕ)
    → Owned c (a ∷ pending) going
    → (c' : Context) × (release c a ≡ done c')
      × Owned c' pending going
      × (c'.all_objects ≡ c.all_objects)
unfolding release count
release-Owned c a pending going i =
    let (o, e, h) = live-some {a = a} i (ground (arith, i.refs a)) in
    (
      release_loaded c a o,
      rw (load-some c a o e),
      release_loaded-Owned c a o pending going i e h,
      release_loaded-all c a o,
    )

-- So can a list of them.
pub release_each-Owned :
    (c : Context) (as' : List ℕ) (pending going : List ℕ)
    → Owned c (as' ++ pending) going
    → (c' : Context) × (release_each c as' ≡ done c')
      × Owned c' pending going
      × (c'.all_objects ≡ c.all_objects)
unfolding release_each
release_each-Owned c [] pending going i = (c, refl, i, refl)
release_each-Owned c (a ∷ as') pending going i =
    let (c', e, i', s) = release-Owned c a (as' ++ pending) going i in
    let (c'', e', i'', s') = release_each-Owned c' as' pending going i' in
    (c'', rw (e, ◌>>=◌) e', i'', s' ∙ s)
