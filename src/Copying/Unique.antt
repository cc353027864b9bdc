-- ===== src/Copying/Unique.antt =====
-- `unique_copy` of collections/copying.h on an object that has no copy, or one that has.
use jcontainers_ng.Common.{
  ℕ, ◌+◌, ◌≤◌, ◌<◌, ◌≡◌, ◌≢◌, refl, ap, sym, ◌∙◌, true, false, ◌==◌, none, some, List, [], ◌∷◌,
  ◌++◌, ◌⊎◌, arith, length, count, count-append, one_if, Bool-cases, Option-cases, inl, inr,
  some-eq,
}
use jcontainers_ng.Paths.{Container, Store, write}
use jcontainers_ng.Copying.{Copying, find, items_of, shallow_copy, unique_copy}
use jcontainers_ng.Copying.Copied.{
  origin_of, uncopied-cons, waits, Done, Entry, Inv, Grows, CopiesOf-more,
}

-- A copy that is found is the new one or one that was there.
find-cons :
    (m : List (ℕ × ℕ)) (x a o o' : ℕ)
    → find ((x, a) ∷ m) o ≡ some o'
    → ((x ≡ o) × (a ≡ o')) ⊎ ((find m o ≡ some o'))
unfolding find
find-cons m x a o o' f = elim (Bool-cases (x == o)) [
  | inl same ↦ let f' = rw same at f in inl (ground arith, some-eq f')
  | inr other ↦ let f' = rw other at f in inr f'
]

find-more :
    (m : List (ℕ × ℕ)) (x a o o' : ℕ)
    → find m x ≡ none
    → find m o ≡ some o'
    → find ((x, a) ∷ m) o ≡ some o'
unfolding find
find-more m x a o o' e f = elim (Bool-cases (x == o)) [
  | inl same ↦
      (let z : x ≡ o = ground arith in let g : find m o ≡ none = ap (find m) (sym z) ∙ e in cc)
  | inr other ↦ rw other f
]

find-new : (m : List (ℕ × ℕ)) (x a : ℕ) → find ((x, a) ∷ m) x ≡ some a
unfolding find
find-new m x a = let self : (x == x) ≡ true = ground arith in rw self refl

origin_of-new : (m : List (ℕ × ℕ)) (x a : ℕ) → origin_of ((x, a) ∷ m) a ≡ some x
unfolding origin_of
origin_of-new m x a = let self : (a == a) ≡ true = ground arith in rw self refl

origin_of-old :
    (m : List (ℕ × ℕ)) (x a o' : ℕ) → a ≢ o' → origin_of ((x, a) ∷ m) o' ≡ origin_of m o'
unfolding origin_of
origin_of-old m x a o' h = let other : (a == o') ≡ false = ground arith in rw other refl

module _ {R : Type 0} where
  pub write_same : (s : Store R) (a : ℕ) (c : Container R) → (write s a c).objects a ≡ c
  write_same s a c = let e : (a == a) ≡ true = ground arith in rw e refl

  pub write_other :
      (s : Store R) (a b : ℕ) (c : Container R) → a ≢ b → (write s a c).objects b ≡ s.objects b
  write_other s a b c h = let e : (a == b) ≡ false = ground arith in rw e refl

  -- What `unique_copy` makes of an object that has no copy.
  abbrev added : Copying R → ℕ → Copying R
  added st x =
      let a = st.store.next_address in
      record {
        store = record (write st.store a (st.store.objects x)) { next_address = a + 1 };
        copied = (x, a) ∷ st.copied;
        to_traverse = st.to_traverse ++ (a ∷ []);
      }

  waits-added :
      (st : Copying R) (x : ℕ) (tmp : List ℕ) (b : ℕ)
      → waits tmp (added st x) b ≡ waits tmp st b + one_if (b == st.store.next_address)
  unfolding count
  waits-added st x tmp b = omega (arith, count-append b st.to_traverse (st.store.next_address ∷ []))

  module _ {s : Store R} {tmp : List ℕ} {st : Copying R} (i : Inv s tmp st) (x : ℕ) where
    none_waits : waits tmp st st.store.next_address ≡ 0
    none_waits = elim (Bool-cases (waits tmp st st.store.next_address == 0)) [
      | inl none_there ↦ ground arith
      | inr there ↦
          let (o, f) = i.waiting st.store.next_address (ground arith) in
          absurd (omega (arith, (i.entry o st.store.next_address f).made))
    ]

    module _ (h : x < s.next_address) (e : find st.copied x ≡ none) where
      added-Entry : (o o' : ℕ) → find (added st x).copied o ≡ some o' → Entry s (added st x) o o'
      added-Entry o o' f = elim (find-cons st.copied x st.store.next_address o o' f) [
        | inl (same, new) ↦ record {
          original = omega (arith, same, h);
          new = omega (arith, new, i.room);
          made = omega (arith, new);
          back = rw (← new) (origin_of-new st.copied x st.store.next_address ∙ ap some same);
        }
        | inr there ↦
            let k = i.entry o o' there in
            record {
              original = k.original;
              new = k.new;
              made = omega (arith, k.made);
              back =
                  origin_of-old st.copied x st.store.next_address o' (omega (arith, k.made))
                  ∙ k.back;
            }
      ]

      added-plain :
          (o o' : ℕ)
          → find (added st x).copied o ≡ some o'
          → 0 < waits tmp (added st x) o'
          → (added st x).store.objects o' ≡ s.objects o
      added-plain o o' f p = elim (find-cons st.copied x st.store.next_address o o' f) [
        | inl (same, new) ↦ rw (← new) (
            write_same st.store st.store.next_address (st.store.objects x)
            ∙ i.kept x h
            ∙ ap s.objects same)
        | inr there ↦
            let k = i.entry o o' there in
            let still : 0 < waits tmp st o' = ground (arith, waits-added st x tmp o', k.made) in
            write_other st.store st.store.next_address o' (st.store.objects x)
              (omega (arith, k.made))
            ∙ i.plain o o' there still
      ]

      added-ready :
          (o o' : ℕ)
          → find (added st x).copied o ≡ some o'
          → waits tmp (added st x) o' ≡ 0
          → Done s (added st x) o o'
      added-ready o o' f z = elim (find-cons st.copied x st.store.next_address o o' f) [
        | inl (same, new) ↦ let w = waits-added st x tmp o' in absurd (ground arith)
        | inr there ↦
            let k = i.entry o o' there in
            let d = i.ready o o' there (omega (arith, waits-added st x tmp o')) in
            record {
              items = d.items;
              written =
                  write_other st.store st.store.next_address o' (st.store.objects x)
                    (omega (arith, k.made))
                  ∙ d.written;
              copies =
                  CopiesOf-more st.copied (added st x).copied (items_of (s.objects o)) d.items
                    (λ p q. find-more st.copied x st.store.next_address p q e) d.copies;
            }
      ]

      added-waiting :
          (b : ℕ) → 0 < waits tmp (added st x) b → (o : ℕ) × (find (added st x).copied o ≡ some b)
      added-waiting b p = elim (Bool-cases (b == st.store.next_address)) [
        | inl same ↦
            let z : st.store.next_address ≡ b = ground arith in
            (x, find-new st.copied x st.store.next_address ∙ ap some z)
        | inr other ↦
            let w = rw other at (waits-added st x tmp b) in
            let (o, f) = i.waiting b (omega (arith, w)) in
            (o, find-more st.copied x st.store.next_address o b e f)
      ]

      added-once : (b : ℕ) → waits tmp (added st x) b ≤ 1
      added-once b = elim (Bool-cases (b == st.store.next_address)) [
        | inl same ↦
            let z : b ≡ st.store.next_address = ground arith in
            let none_there : waits tmp st b ≡ 0 = ap (waits tmp st) z ∙ none_waits in
            let w = rw same at (waits-added st x tmp b) in omega (arith, w, none_there)
        | inr other ↦ (let w = rw other at (waits-added st x tmp b) in omega (arith, w, i.once b))
      ]

      added-Inv : Inv s tmp (added st x)
      added-Inv = record {
        room = omega (arith, i.room);
        kept = λ y b.
            write_other st.store st.store.next_address y (st.store.objects x)
              (omega (arith, i.room, b))
            ∙ i.kept y b;
        entry = added-Entry;
        once = added-once;
        waiting = added-waiting;
        plain = added-plain;
        ready = added-ready;
      }

      added-Grows : Grows s.next_address st (added st x)
      added-Grows = record {
        more = λ o o' f. find-more st.copied x st.store.next_address o o' e f;
        rank = omega (
          arith,
          uncopied-cons st.copied x st.store.next_address s.next_address h e,
          length-snoc st.to_traverse st.store.next_address,
        );
      }
        where
          length-snoc : (xs : List ℕ) (a : ℕ) → length (xs ++ (a ∷ [])) ≡ length xs + 1
          length-snoc [] a = refl
          length-snoc (y ∷ xs) a = omega (arith, length-snoc xs a)

    -- The copy is found afterwards.
    pub unique_copy-Inv :
        x < s.next_address
        → let r = unique_copy st x in
          Inv s tmp r.1 × Grows s.next_address st r.1 × (find r.1.copied x ≡ some r.0)
    unfolding unique_copy shallow_copy
    unique_copy-Inv h = elim (Option-cases (find st.copied x)) [
      | inl missing ↦
          rw (missing, unique_copy)
            (added-Inv h missing, added-Grows h missing, find-new st.copied x st.store.next_address)
      | inr (c, there) ↦
          rw (there, unique_copy) (i, record { more = λ o o' f. f; rank = refl }, there)
    ]
