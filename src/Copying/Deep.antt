-- ===== src/Copying/Deep.antt =====
-- `deep_copy` of collections/copying.h: its loop ends, and what it leaves.
use jcontainers_ng.Common.{
  ℕ, zero, suc, ◌+◌, ◌≤◌, ◌<◌, ◌≡◌, refl, ap, sym, ◌∙◌, none, some, List, [], ◌∷◌, ◌⊎◌, arith,
  length, count, Option-cases, inl, inr,
}
use jcontainers_ng.Item.{Item}
use jcontainers_ng.Paths.{Store}
use jcontainers_ng.Copying.{
  Copying, find, items_of, with_items, unique_copy, traverse, rounds, deep_copy,
}
use jcontainers_ng.Copying.Copied.{origin_of, uncopied, CopiesOf, waits, Inv}
use jcontainers_ng.Copying.Unique.{unique_copy-Inv}
use jcontainers_ng.Copying.Traverse.{Closed, traverse-Inv}

list_cases : (xs : List ℕ) → (xs ≡ []) ⊎ ((y : ℕ) × (ys : List ℕ) × (xs ≡ y ∷ ys))
list_cases [] = inl refl
list_cases (y ∷ ys) = inr (y, ys, refl)

uncopied-nil : (n : ℕ) → uncopied [] n ≡ n
unfolding uncopied find
uncopied-nil zero = refl
uncopied-nil (suc n) = omega (arith, uncopied-nil n)

module _ {R : Type 0} where
  -- The loop ends with nothing left to do.
  record Ended (s : Store R) (fuel : ℕ) (st : Copying R) : Type 0 where
    last : Copying R
    runs : rounds fuel st ≡ some last
    sound : Inv s [] last
    empty : last.to_traverse ≡ []
    more : (o o' : ℕ) → find st.copied o ≡ some o' → find last.copied o ≡ some o'

  -- The objects that wait become the round.
  start_round :
      {s : Store R} (st : Copying R)
      → Inv s [] st
      → Inv s st.to_traverse (record st { to_traverse = [] })
  unfolding count
  start_round {s} st i = record {
    room = i.room;
    kept = i.kept;
    entry = λ o o' f.
        let k = i.entry o o' f in
        record { original = k.original; new = k.new; made = k.made; back = k.back };
    once = λ b. omega (arith, i.once b);
    waiting = λ b p. i.waiting b (omega (arith, p));
    plain = λ o o' f p. i.plain o o' f (omega (arith, p));
    ready = λ o o' f z.
        let d = i.ready o o' f (omega (arith, z)) in
        record { items = d.items; written = d.written; copies = d.copies };
  }

  rounds-Ended :
      {s : Store R} (fuel : ℕ) (st : Copying R)
      → Closed s
      → Inv s [] st
      → uncopied st.copied s.next_address + length st.to_traverse ≤ fuel
      → Ended s fuel st
  unfolding rounds
  rounds-Ended {s} zero st closed i h = elim (list_cases st.to_traverse) [
    | inl e ↦ record {
      last = st;
      runs = simp (e, rounds) refl;
      sound = i;
      empty = e;
      more = λ o o' f. f;
    }
    | inr (y, ys, e) ↦
        (let l : length st.to_traverse ≡ suc (length ys) = ap length e in
          absurd (omega (arith, l, h)))
  ]
  rounds-Ended {s} (suc fuel) st closed i h = elim (list_cases st.to_traverse) [
    | inl e ↦ record {
      last = st;
      runs = simp (e, rounds) refl;
      sound = i;
      empty = e;
      more = λ o o' f. f;
    }
    | inr (y, ys, e) ↦
        let l : length st.to_traverse ≡ suc (length ys) = ap length e in
        let (i', g) =
          traverse-Inv st.to_traverse (record st { to_traverse = [] }) closed (start_round st i) in
        let rest =
          rounds-Ended fuel (traverse (record st { to_traverse = [] }) st.to_traverse) closed i'
            (omega (arith, g.rank, l, h)) in
        record {
          last = rest.last;
          runs =
              rw (e, rounds)
                (ap (λ tmp. rounds fuel (traverse (record st { to_traverse = [] }) tmp)) (sym e)
                  ∙ rest.runs);
          sound = rest.sound;
          empty = rest.empty;
          more = λ o o' f. rest.more o o' (g.more o o' f);
        }
  ]

  -- An object that was copied: its copy is at an address that was free, belongs to no other object,
  -- and holds the same items with the copies of the objects in place of the objects.
  abbrev pub CopiedAt : Store R → Copying R → ℕ → Type 0
  CopiedAt s st o = elim (find st.copied o) [
    | none ↦ Unit
    | some o' ↦
        (s.next_address ≤ o')
        × (origin_of st.copied o' ≡ some o)
        × (items : List (Item R)) × (st.store.objects o' ≡ with_items (s.objects o) items)
        × CopiesOf st.copied (items_of (s.objects o)) items
  ]

  Inv-CopiedAt :
      {s : Store R} {st : Copying R} (o : ℕ) → Inv s [] st → st.to_traverse ≡ [] → CopiedAt s st o
  unfolding count
  Inv-CopiedAt {s} {st} o i e = elim (Option-cases (find st.copied o)) [
    | inl missing ↦ rw (missing, CopiedAt) tt
    | inr (o', f) ↦
        let k = i.entry o o' f in
        let idle : waits [] st o' ≡ 0 = rw e refl in
        let d = i.ready o o' f idle in
        rw (f, CopiedAt) (k.new, k.back, d.items, d.written, d.copies)
  ]

  start-Inv : (s : Store R) → Inv s [] (record { store = s; copied = []; to_traverse = [] })
  unfolding find count
  start-Inv s = record {
    room = omega arith;
    kept = λ x b. refl;
    entry = λ o o' f. cc;
    once = λ b. omega arith;
    waiting = λ b p. absurd (omega (arith, p));
    plain = λ o o' f p. cc;
    ready = λ o o' f z. cc;
  }

  -- When every object refers to objects in use, the deep copy of one of them ends, answers a copy of
  -- it, copies whatever an object that it has copied refers to, each object once, whether shared or
  -- in a cycle, and leaves the objects that were in use as they were.
  pub deep_copy-CopiedAt :
      (s : Store R) (origin other : ℕ)
      → Closed s
      → origin < s.next_address
      → other < s.next_address
      → (copy : ℕ) × (st : Copying R) × (deep_copy s origin ≡ some (copy, st))
        × (find st.copied origin ≡ some copy)
        × ((o : ℕ) → CopiedAt s st o)
        × (st.store.objects other ≡ s.objects other)
  unfolding deep_copy
  deep_copy-CopiedAt s origin other closed h k =
      let start : Copying R = record { store = s; copied = []; to_traverse = [] } in
      let (i, g, f) = unique_copy-Inv (start-Inv s) origin h in
      let root = unique_copy start origin in
      let ended =
        rounds-Ended s.next_address root.1 closed i
          (omega (arith, g.rank, uncopied-nil s.next_address)) in
      (
        root.0,
        ended.last,
        rw (ended.runs, deep_copy) refl,
        ended.more origin root.0 f,
        λ o. Inv-CopiedAt o ended.sound ended.empty,
        ended.sound.kept other k,
      )
