-- ===== src/Objects/Reach.antt =====
-- `u_collect` of object/garbage_collector.h: its roots, and what they reach.
use jcontainers_ng.Common.{
  ℕ, suc, ◌+◌, ◌≤◌, ◌<◌, ◌≡◌, refl, ap, sym, ◌∙◌, Bool, true, Option, none, some, List, [], ◌∷◌,
  arith, ◌==◌, Bool-cases, inl, inr, count, length, ◌||◌, some-eq, true≢false,
}
use jcontainers_ng.Index.{done, ◌>>=◌}
use jcontainers_ng.Objects.{Object, Context, remove_address, is_user_retains, is_in_aqueue}
use jcontainers_ng.Objects.Collector.{Result, find_roots, erase_all, find_non_reachable, u_collect}
use jcontainers_ng.Objects.Invariant.{items_at, refs_at, live_at, live-some, listed-some}
use jcontainers_ng.Objects.Release.{Owned, load-some}
use jcontainers_ng.Objects.Delete.{held-remove, one_self}
use jcontainers_ng.Objects.Mark.{Search, visit_all-Search}
use jcontainers_ng.Objects.Sweep.{sweep-Owned}

abbrev pub is_root : Object → Bool
is_root o = is_user_retains o || is_in_aqueue o

-- An object that can still be used: a root, or an item of such an object.
pub data Reach (c : Context) : ℕ → Type 0 where
  root : {a : ℕ} {o : Object} → c.heap a ≡ some o → is_root o ≡ true → Reach c a
  item : {a b : ℕ} {o : Object} → Reach c a → c.heap a ≡ some o → 0 < count b o.items → Reach c b

remove-below : (a b : ℕ) (bs : List ℕ) → count b (remove_address a bs) ≤ count b bs
unfolding remove_address count
remove-below a b [] = omega arith
remove-below a b (x ∷ bs) = ground (arith, remove-below a b bs)

remove-above :
    (a b : ℕ) (bs : List ℕ) → count b bs ≤ count b (remove_address a bs) + count b (a ∷ [])
unfolding remove_address count
remove-above a b [] = omega arith
remove-above a b (x ∷ bs) = ground (arith, remove-above a b bs)

remove-once : (a : ℕ) (bs : List ℕ) → count a bs ≤ 1 → count a (remove_address a bs) ≡ 0
unfolding remove_address count
remove-once a [] h = refl
remove-once a (x ∷ bs) h = elim (Bool-cases (a == x)) [
  | inl same ↦ let h' = rw same at h in rw same (omega (arith, h'))
  | inr other ↦
      let h' = rw other at h in
      rw other (rw other (omega (arith, remove-once a bs (omega (arith, h')))))
]

remove-shorter : (a : ℕ) (bs : List ℕ) → length (remove_address a bs) ≤ length bs
unfolding remove_address
remove-shorter a [] = omega arith
remove-shorter a (x ∷ bs) = ground (arith, remove-shorter a bs)

erase_all-below : (as' bs : List ℕ) (b : ℕ) → count b (erase_all as' bs) ≤ count b bs
unfolding erase_all
erase_all-below [] bs b = omega arith
erase_all-below (a ∷ as') bs b =
    omega (arith, erase_all-below as' (remove_address a bs) b, remove-below a b bs)

erase_all-above : (as' bs : List ℕ) (b : ℕ) → count b bs ≤ count b (erase_all as' bs) + count b as'
unfolding erase_all count
erase_all-above [] bs b = omega arith
erase_all-above (a ∷ as') bs b =
    omega (arith, erase_all-above as' (remove_address a bs) b, remove-above a b bs)

erase_all-once :
    (as' bs : List ℕ) (b : ℕ) → count b bs ≤ 1 → 0 < count b as' → count b (erase_all as' bs) ≡ 0
unfolding erase_all count
erase_all-once [] bs b h p = absurd (omega arith)
erase_all-once (a ∷ as') bs b h p = elim (Bool-cases (b == a)) [
  | inl same ↦
      let z : a ≡ b = ground arith in
      rw z (omega (arith, erase_all-below as' (remove_address b bs) b, remove-once b bs h))
  | inr other ↦
      let p' = rw other at p in
      erase_all-once as' (remove_address a bs) b (omega (arith, remove-below a b bs))
        (omega (arith, p'))
]

erase_all-shorter : (as' bs : List ℕ) → length (erase_all as' bs) ≤ length bs
unfolding erase_all
erase_all-shorter [] bs = omega arith
erase_all-shorter (a ∷ as') bs =
    omega (arith, erase_all-shorter as' (remove_address a bs), remove-shorter a bs)

-- The roots among listed objects.
find_roots-total :
    (c : Context) (as' : List ℕ)
    → ((b : ℕ) → 0 < count b as' → (o : Object) × (c.heap b ≡ some o))
    → (roots : List ℕ) × (find_roots c as' ≡ done roots)
      × ((b : ℕ) → count b roots ≤ count b as')
      × ((b : ℕ) (o : Object)
          → 0 < count b as'
          → c.heap b ≡ some o
          → is_root o ≡ true
          → 0 < count b roots)
unfolding find_roots count
find_roots-total c [] live = ([], refl, λ b. omega arith, λ b o p e t. absurd (omega arith))
find_roots-total c (a ∷ as') live =
    let (o, e) = live a (omega (arith, one_self a)) in
    let (roots, r, few, all_in) = find_roots-total c as' (λ b p. live b (omega arith)) in
    elim (Bool-cases (is_root o)) [
      | inl is_one ↦ (
        a ∷ roots,
        rw (load-some c a o e) (rw (r, ◌>>=◌) (rw is_one refl)),
        λ b. omega (arith, few b),
        λ b o' p e' t. elim (Bool-cases (b == a)) [
          | inl same ↦ ground arith
          | inr other ↦
              let p' = rw other at p in omega (arith, all_in b o' (omega (arith, p')) e' t)
        ],
      )
      | inr is_not ↦ (
        roots,
        rw (load-some c a o e) (rw (r, ◌>>=◌) (rw is_not refl)),
        λ b. omega (arith, few b),
        λ b o' p e' t. elim (Bool-cases (b == a)) [
          | inl same ↦
              let z : b ≡ a = ground arith in
              let q : o' ≡ o = some-eq (sym e' ∙ ap c.heap z ∙ e) in
              absurd (true≢false (sym (rw (← q) t) ∙ is_not))
          | inr other ↦ let p' = rw other at p in all_in b o' (omega (arith, p')) e' t
        ],
      )
    ]

-- The items of an object in the heap are in the heap.
items-some :
    (c : Context)
    → Owned c [] []
    → (a : ℕ) (o : Object) → c.heap a ≡ some o
    → (b : ℕ) → 0 < count b o.items
    → (o' : Object) × (c.heap b ≡ some o')
items-some c i a o e b p =
    let here : count a c.all_objects ≡ 1 = sym (i.live a) ∙ rw (e, live_at) in
    let mine : count b (items_at c.heap a) ≡ count b o.items = rw (e, items_at) in
    let r : 0 < refs_at c.heap b = omega (
      arith,
      i.refs b,
      mine,
      p,
      held-remove (items_at c.heap) a b c.all_objects (omega (arith, here)),
    ) in
    let (o', e', _) = live-some i r in (o', e')

-- The search starts with the roots taken out and in line.
Search-start :
    (c : Context) (roots : List ℕ)
    → Owned c [] []
    → ((b : ℕ) → count b roots ≤ count b c.all_objects)
    → Search c (erase_all roots c.all_objects) roots
Search-start c roots i few = record {
  once = λ b. erase_all-below roots c.all_objects b;
  single = λ b. omega (arith, erase_all-below roots c.all_objects b, listed-single c i b);
  alive = λ b p. listed-some {a = b} i (omega (arith, few b));
  closed = λ x o e n.
      inl (omega (arith, n, erase_all-above roots c.all_objects x, listed-here c i x o e));
}
  where
    listed-here :
        (c : Context)
        → Owned c [] []
        → (x : ℕ) (o : Object) → c.heap x ≡ some o
        → count x c.all_objects ≡ 1
    listed-here c i x o e = sym (i.live x) ∙ rw (e, live_at)

    live-single : (v : Option Object) → (elim v [ none ↦ 0 | some o ↦ 1 ]) ≤ 1
    live-single none = omega arith
    live-single (some o) = omega arith

    listed-single : (c : Context) → Owned c [] [] → (x : ℕ) → count x c.all_objects ≤ 1
    listed-single c i x = omega (arith, i.live x, live-single (c.heap x))

-- What the search leaves is not reached.
Reach-out :
    (c : Context) (garbage : List ℕ)
    → Search c garbage []
    → ((a : ℕ) (o : Object) → c.heap a ≡ some o → is_root o ≡ true → count a garbage ≡ 0)
    → {b : ℕ} → Reach c b
    → count b garbage ≡ 0
unfolding count
Reach-out c garbage s roots_out (root {a} {o} e t) = roots_out a o e t
Reach-out c garbage s roots_out (item {a} {b} {o} r e p) =
    elim (s.closed a o e (Reach-out c garbage s roots_out r)) [
      | inl waits ↦ absurd (omega (arith, waits))
      | inr all_out ↦ all_out b p
    ]

-- The collection, with all that it keeps.
u_collect-kept :
    (c : Context)
    → Owned c [] []
    → (r : Result) × (c' : Context) × (u_collect c ≡ done (some (r, c')))
      × Owned c' [] []
      × ((b : ℕ) → Reach c b → count b c'.all_objects ≡ count b c.all_objects)
unfolding u_collect find_non_reachable
u_collect-kept c i =
    let all = c.all_objects in
    let (roots, f, few, all_in) = find_roots-total c all (λ b p. listed-some {a = b} i p) in
    let s = Search-start c roots i few in
    let (garbage, v, s', fewer) =
      visit_all-Search c (items-some c i) (suc (length all)) (erase_all roots all) roots s
        (λ p. omega (arith, erase_all-shorter roots all)) in
    let (m, c', w, i', kept) = sweep-Owned c garbage 0 i s'.once in
    (
      record { garbage_total = length garbage; part_of_graphs = m },
      c',
      rw (f, ◌>>=◌) (rw (v, ◌>>=◌) (rw (w, ◌>>=◌) refl)),
      i',
      λ b r. kept b (
          Reach-out c garbage s'
            (λ a o e t.
              let here : count a all ≡ 1 = sym (i.live a) ∙ rw (e, live_at) in
              let in_roots = all_in a o (omega (arith, here)) e t in
              let gone = erase_all-once roots all a (omega (arith, here)) in_roots in
              omega (arith, gone, fewer a))
            r),
    )

-- In a context whose counts agree with its items and its queue, the collection ends without an
-- access to a freed object, and leaves such a context.
pub u_collect-Owned :
    (c : Context)
    → Owned c [] []
    → (r : Result) × (c' : Context) × (u_collect c ≡ done (some (r, c'))) × Owned c' [] []
u_collect-Owned c i = let (r, c', e, i', _) = u_collect-kept c i in (r, c', e, i')

-- In a context whose counts agree with its items and its queue, the collection keeps in the
-- registry each object that can be reached from an object that a script retains or the queue owns.
pub u_collect-Reach :
    (c : Context) (b : ℕ)
    → Owned c [] []
    → Reach c b
    → (r : Result) × (c' : Context) × (u_collect c ≡ done (some (r, c')))
      × (count b c'.all_objects ≡ count b c.all_objects)
u_collect-Reach c b i reached =
    let (r, c', e, _, kept) = u_collect-kept c i in (r, c', e, kept b reached)
