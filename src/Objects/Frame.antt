-- ===== src/Objects/Frame.antt =====
-- What a call of object/object_base.hpp on one object leaves of another, and of the clock.
use jcontainers_ng.Common.{
  ℕ, ◌-◌, ◌≤◌, ◌<◌, ◌≡◌, ◌≢◌, refl, ap, sym, ◌∙◌, Bool, true, false, none, some, List, [], ◌∷◌,
  arith, ◌==◌, ◌⊎◌, ltb, leb, Bool-cases, Option-cases, inl, inr, count, ◌&&◌,
}
use jcontainers_ng.Index.{Exec, done, fault, ◌>>=◌}
use jcontainers_ng.Objects.{
  Object, Context, update, put, load, queue_prolong, is_in_aqueue, is_public, no_owners,
  total_count, release_loaded, release, release_each, remove_object, delete_self,
  aqueue_release_loaded, aqueue_release,
}
use jcontainers_ng.Objects.Invariant.{Heap, Inv, items_at, refs_at, live_at}
use jcontainers_ng.Objects.Release.{Owned}
use jcontainers_ng.Objects.Delete.{held-remove}

-- The object `a` and the clock are as they were.
abbrev pub Alike : ℕ → Context → Context → Type 0
Alike a c c' = (c'.heap a ≡ c.heap a) × (c'.tick_counter ≡ c.tick_counter)

Alike-trans : (a : ℕ) (c c' c'' : Context) → Alike a c c' → Alike a c' c'' → Alike a c c''
Alike-trans a c c' c'' p q = (q.0 ∙ p.0, q.1 ∙ p.1)

Exec-cases : {A : Type 0} (r : Exec A) → (r ≡ fault) ⊎ ((x : A) × (r ≡ done x))
Exec-cases (done x) = inr (x, refl)
Exec-cases fault = inl refl

pub done-eq : {A : Type 0} {x y : A} → done x ≡ done y → x ≡ y
done-eq h = cc

put-Alike : (c : Context) (a b : ℕ) (o : Object) → b ≢ a → Alike a c (put c b o)
put-Alike c a b o h = let e : (b == a) ≡ false = ground arith in (rw e refl, refl)

queue_prolong-Alike :
    (c : Context) (a b : ℕ) (o : Object) (public : Bool)
    → b ≢ a
    → Alike a c (queue_prolong c b o public)
unfolding queue_prolong
queue_prolong-Alike c a b o public h = elim (Bool-cases (is_in_aqueue o)) [
  | inl inside ↦ rw inside (put-Alike c a b _ h)
  | inr outside ↦ rw outside (put-Alike c a b _ h)
]

release_loaded-Alike :
    (c : Context) (a b : ℕ) (o : Object) → b ≢ a → Alike a c (release_loaded c b o)
unfolding release_loaded
release_loaded-Alike c a b o h =
    let o' = record o { ref_count = o.ref_count - 1 } in
    elim (Bool-cases (ltb 0 o.ref_count)) [
      | inl some_left ↦ rw some_left (elim (Bool-cases (no_owners o' && o.initialized)) [
        | inl gone ↦ rw gone (queue_prolong-Alike c a b o' (is_public o') h)
        | inr kept ↦ rw kept (put-Alike c a b o' h)
      ])
      | inr none_left ↦ rw none_left (refl, refl)
    ]

-- The object is not in the heap, or not among those that are released.
abbrev Spared : ℕ → Context → List ℕ → Type 0
Spared a c bs = (c.heap a ≡ none) ⊎ (count a bs ≡ 0)

apart :
    (a b : ℕ) (c : Context) (bs : List ℕ) (o : Object)
    → Spared a c (b ∷ bs)
    → c.heap b ≡ some o
    → b ≢ a
unfolding count
apart a b c bs o (inl free) e =
    λ same. (let e' : c.heap a ≡ some o = ap c.heap (sym same) ∙ e in cc)
apart a b c bs o (inr other) e = λ same. absurd (ground arith)

Spared-rest :
    (a b : ℕ) (c c' : Context) (bs : List ℕ) → Spared a c (b ∷ bs) → Alike a c c' → Spared a c' bs
unfolding count
Spared-rest a b c c' bs (inl free) k = inl (k.0 ∙ free)
Spared-rest a b c c' bs (inr other) k = inr (omega arith)

release-Alike :
    (c c' : Context) (a b : ℕ) (bs : List ℕ)
    → Spared a c (b ∷ bs)
    → release c b ≡ done c'
    → Alike a c c'
unfolding release load
release-Alike c c' a b bs s e = elim (Option-cases (c.heap b)) [
  | inl free ↦ (let e' = rw (free, load) at e in cc)
  | inr (o, there) ↦
      let e' : release_loaded c b o ≡ c' = done-eq (rw (there, load) at e) in
      rw (← e') (release_loaded-Alike c a b o (apart a b c bs o s there))
]

release_each-Alike :
    (c c' : Context) (a : ℕ) (bs : List ℕ)
    → Spared a c bs
    → release_each c bs ≡ done c'
    → Alike a c c'
unfolding release_each
release_each-Alike c c' a [] s e = rw (← done-eq e) (refl, refl)
release_each-Alike c c' a (b ∷ bs) s e = elim (Exec-cases (release c b)) [
  | inl bad ↦ (let e' = rw (bad, ◌>>=◌) at e in cc)
  | inr (c1, r) ↦
      let k = release-Alike c c1 a b bs s r in
      let e' : release_each c1 bs ≡ done c' = rw (r, ◌>>=◌) at e in
      Alike-trans a c c1 c' k (release_each-Alike c1 c' a bs (Spared-rest a b c c1 bs s k) e')
]

-- The context when the items of a deleted object are about to be released.
abbrev removed : Context → ℕ → Object → Context
removed c b o = record (remove_object c b o) { heap = update (remove_object c b o).heap b none }

remove_object-Alike : (c : Context) (a b : ℕ) (o : Object) → Alike a c (remove_object c b o)
unfolding remove_object
remove_object-Alike c a b o = elim (Bool-cases (is_public o)) [
  | inl shown ↦ rw shown (refl, refl)
  | inr hidden ↦ rw hidden (refl, refl)
]

delete_self-Alike :
    (c c' : Context) (a b : ℕ) (o : Object)
    → b ≢ a
    → count a o.items ≡ 0
    → delete_self c b o ≡ done c'
    → Alike a c c'
unfolding delete_self
delete_self-Alike c c' a b o h z e =
    let other : (b == a) ≡ false = ground arith in
    let k = remove_object-Alike c a b o in
    let k' : Alike a c (removed c b o) = (rw other k.0, k.1) in
    Alike-trans a c (removed c b o) c' k'
      (release_each-Alike (removed c b o) c' a o.items (inr z) e)

-- A deleted object is gone from the heap.
delete_self-gone :
    (c c' : Context) (a : ℕ) (o : Object)
    → delete_self c a o ≡ done c'
    → (c'.heap a ≡ none) × (c'.tick_counter ≡ c.tick_counter)
unfolding delete_self
delete_self-gone c c' a o e =
    let self : (a == a) ≡ true = ground arith in
    let free : (removed c a o).heap a ≡ none = rw self refl in
    let k = release_each-Alike (removed c a o) c' a o.items (inl free) e in
    (k.0 ∙ free, k.1 ∙ (remove_object-Alike c a a o).1)

-- An object without references is not among the items of another.
not_held :
    {h : Heap} {all queue pending going : List ℕ} (a b : ℕ) (o : Object)
    → Inv h all queue pending going
    → refs_at h a ≡ 0
    → h b ≡ some o
    → count a o.items ≡ 0
not_held {h} {all} a b o i z e =
    let listed : 0 < count b all = omega (arith, i.live b ∙ refl, one_live) in
    let items : count a (items_at h b) ≡ count a o.items = rw (e, items_at) refl in
    omega (arith, held-remove (items_at h) b a all listed, i.refs a, z, items)
  where
    one_live : live_at h b ≡ 1
    one_live = rw (e, live_at) refl

pub aqueue_release-Alike :
    (c c' : Context) (a b : ℕ) (pending going : List ℕ)
    → Owned c pending (b ∷ going)
    → refs_at c.heap a ≡ 0
    → b ≢ a
    → aqueue_release c b ≡ done c'
    → Alike a c c'
unfolding aqueue_release aqueue_release_loaded load
aqueue_release-Alike c c' a b pending going i z h e = elim (Option-cases (c.heap b)) [
  | inl free ↦ (let e' = rw (free, load) at e in cc)
  | inr (o, there) ↦
      let e' : aqueue_release_loaded c b o ≡ done c' = rw (there, load) at e in
      elim (Bool-cases (leb (total_count o) 1)) [
        | inl last ↦
            let e'' : delete_self c b (record o { aqueue_ref_count = 0 }) ≡ done c' =
              rw last at e' in
            delete_self-Alike c c' a b (record o { aqueue_ref_count = 0 }) h
              (not_held a b o i z there) e''
        | inr more ↦
            let e'' : put c b (record o { aqueue_ref_count = o.aqueue_ref_count - 1 }) ≡ c' =
              done-eq (rw more at e') in
            rw (← e'') (put-Alike c a b (record o { aqueue_ref_count = o.aqueue_ref_count - 1 }) h)
      ]
]

-- The queue deletes an object that it alone owns.
pub aqueue_release-gone :
    (c c' : Context) (a : ℕ) (o : Object)
    → c.heap a ≡ some o
    → total_count o ≤ 1
    → aqueue_release c a ≡ done c'
    → (c'.heap a ≡ none) × (c'.tick_counter ≡ c.tick_counter)
unfolding aqueue_release aqueue_release_loaded load
aqueue_release-gone c c' a o there h e =
    let last : leb (total_count o) 1 ≡ true = ground arith in
    let e' : aqueue_release_loaded c a o ≡ done c' = rw (there, load) at e in
    let e'' : delete_self c a (record o { aqueue_ref_count = 0 }) ≡ done c' = rw last at e' in
    delete_self-gone c c' a (record o { aqueue_ref_count = 0 }) e''
