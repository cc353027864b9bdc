-- ===== src/Copying/Traverse.antt =====
-- A round of the deep copy: `copy_child_objects` on each object of the round.
use jcontainers_ng.Common.{
  ℕ, ◌≤◌, ◌<◌, ◌≡◌, refl, ap, sym, ◌∙◌, false, ◌==◌, some, List, [], ◌∷◌, arith, count, one_if,
  Bool-cases, Option-cases, inl, inr, some-eq,
}
use mathlib.Core.Path.{subst}
use jcontainers_ng.Item.{Item, object, object_of}
use jcontainers_ng.Paths.{Container, Store, write}
use jcontainers_ng.Copying.{
  Copying, find, items_of, with_items, unique_copy, copy_child, copy_children, copy_child_objects,
  traverse,
}
use jcontainers_ng.Copying.Copied.{
  origin_of, CopyOf, CopiesOf, AllBelow, waits, Inv, Grows, CopyOf-more,
}
use jcontainers_ng.Copying.Unique.{unique_copy-Inv, write_same, write_other}

module _ {R : Type 0} where
  pub Grows-refl : (n : ℕ) (st : Copying R) → Grows n st st
  Grows-refl n st = record { more = λ o o' f. f; rank = refl }

  pub Grows-trans : {n : ℕ} {a b c : Copying R} → Grows n a b → Grows n b c → Grows n a c
  Grows-trans g h = record { more = λ o o' f. h.more o o' (g.more o o' f); rank = h.rank ∙ g.rank }

  -- An item's copy, in a copying that is sound.
  copy_child-Inv :
      {s : Store R} {tmp : List ℕ} (st : Copying R) (itm : Item R)
      → Inv s tmp st
      → AllBelow s.next_address (itm ∷ [])
      → let r = copy_child st itm in
        Inv s tmp r.1 × Grows s.next_address st r.1 × CopyOf r.1.copied itm r.0
  unfolding copy_child
  copy_child-Inv {s} {tmp} st itm i b = elim (Option-cases (object_of itm)) [
    | inl plain ↦
        let e : copy_child st itm ≡ (itm, st) = rw (plain, copy_child) refl in
        rw e (i, Grows-refl s.next_address st, rw (plain, CopyOf) refl)
    | inr (c, refers) ↦
        let below : c < s.next_address = (rw (refers, AllBelow) at b).0 in
        let (i', g, f) = unique_copy-Inv i c below in
        let r = unique_copy st c in
        let e : copy_child st itm ≡ (object (some r.0), r.1) = rw (refers, copy_child) refl in
        rw e (i', g, rw (refers, CopyOf) (r.0, f, refl))
  ]

  copy_children-Inv :
      {s : Store R} {tmp : List ℕ} (st : Copying R) (items : List (Item R))
      → Inv s tmp st
      → AllBelow s.next_address items
      → let r = copy_children st items in
        Inv s tmp r.1 × Grows s.next_address st r.1 × CopiesOf r.1.copied items r.0
  unfolding copy_children
  copy_children-Inv {s} {tmp} st [] i b = (i, Grows-refl s.next_address st, tt)
  copy_children-Inv {s} {tmp} st (itm ∷ items) i b =
      let (i', g, c) = copy_child-Inv st itm i (b.0, tt) in
      let (i'', g', cs) = copy_children-Inv (copy_child st itm).1 items i' b.1 in
      (
        i'',
        Grows-trans g g',
        (
          CopyOf-more (copy_child st itm).1.copied
              (copy_children (copy_child st itm).1 items).1.copied itm (copy_child st itm).0 g'.more
              c,
          cs,
        ),
      )

  -- The copy `a` of `o` gets its items, and waits no longer.
  abbrev settled : Copying R → ℕ → Container R → Copying R
  settled st a c = record st { store = write st.store a c }

  module _ {s : Store R} {tmp : List ℕ} {st : Copying R} {a : ℕ} (i : Inv s (a ∷ tmp) st) where
    waits_once : waits tmp st a ≡ 0
    unfolding count
    waits_once = let self : one_if (a == a) ≡ 1 = ground arith in omega (arith, i.once a, self)

    waits_other : (b : ℕ) → (a == b) ≡ false → waits (a ∷ tmp) st b ≡ waits tmp st b
    unfolding count
    waits_other b h = ground arith

    waits_more : (b : ℕ) → waits tmp st b ≤ waits (a ∷ tmp) st b
    unfolding count
    waits_more b = omega arith

    settled-Inv :
        (o : ℕ) (items : List (Item R))
        → find st.copied o ≡ some a
        → CopiesOf st.copied (items_of (s.objects o)) items
        → Inv s tmp (settled st a (with_items (s.objects o) items))
    settled-Inv o items f c =
        let filled = with_items (s.objects o) items in
        record {
          room = i.room;
          kept = λ x b.
              write_other st.store a x filled (omega (arith, b, (i.entry o a f).new)) ∙ i.kept x b;
          entry = λ p q g.
              let k = i.entry p q g in
              record { original = k.original; new = k.new; made = k.made; back = k.back };
          once = λ b. omega (arith, i.once b, waits_more b);
          waiting = λ b p. i.waiting b (omega (arith, p, waits_more b));
          plain = λ p q g w. elim (Bool-cases (a == q)) [
            | inl same ↦
                let z : q ≡ a = ground arith in
                let w' : waits tmp st q ≡ 0 = ap (waits tmp st) z ∙ waits_once in
                absurd (omega (arith, w, w'))
            | inr other ↦
                write_other st.store a q filled (ground arith)
                ∙ i.plain p q g (omega (arith, w, waits_other q other))
          ];
          ready = λ p q g w. elim (Bool-cases (a == q)) [
            | inl same ↦
                let z : q ≡ a = ground arith in
                let back =
                  sym (i.entry p q g).back ∙ ap (origin_of st.copied) z ∙ (i.entry o a f).back in
                let y : p ≡ o = some-eq back in
                record {
                  items = items;
                  written =
                      ap (write st.store a filled).objects z
                      ∙ write_same st.store a filled
                      ∙ ap (λ v. with_items (s.objects v) items) (sym y);
                  copies = subst (λ v. CopiesOf st.copied (items_of (s.objects v)) items) (sym y) c;
                }
            | inr other ↦
                let d = i.ready p q g (waits_other q other ∙ w) in
                record {
                  items = d.items;
                  written = write_other st.store a q filled (ground arith) ∙ d.written;
                  copies = d.copies;
                }
          ];
        }

  -- The objects that the containers of `s` refer to have addresses in use.
  abbrev pub Closed : Store R → Type 0
  Closed s = (x : ℕ) → x < s.next_address → AllBelow s.next_address (items_of (s.objects x))

  copy_child_objects-Inv :
      {s : Store R} {tmp : List ℕ} (st : Copying R) (a : ℕ)
      → Closed s
      → Inv s (a ∷ tmp) st
      → Inv s tmp (copy_child_objects st a) × Grows s.next_address st (copy_child_objects st a)
  unfolding copy_child_objects count
  copy_child_objects-Inv {s} {tmp} st a closed i =
      let self : one_if (a == a) ≡ 1 = ground arith in
      let there : 0 < waits (a ∷ tmp) st a = omega (arith, self) in
      let (o, f) = i.waiting a there in
      let (i', g, c) =
        copy_children-Inv st (items_of (s.objects o)) i (closed o (i.entry o a f).original) in
      rw (i.plain o a f there, copy_child_objects)
        (
          settled-Inv i' o (copy_children st (items_of (s.objects o))).0 (g.more o a f) c,
          record { more = g.more; rank = g.rank },
        )

  pub traverse-Inv :
      {s : Store R} (tmp : List ℕ) (st : Copying R)
      → Closed s
      → Inv s tmp st
      → Inv s [] (traverse st tmp) × Grows s.next_address st (traverse st tmp)
  unfolding traverse
  traverse-Inv {s} [] st closed i = (i, Grows-refl s.next_address st)
  traverse-Inv {s} (a ∷ tmp) st closed i =
      let (i', g) = copy_child_objects-Inv st a closed i in
      let (i'', g') = traverse-Inv tmp (copy_child_objects st a) closed i' in
      (i'', Grows-trans g g')
