-- ===== src/Forms/Watch.antt =====
-- The invariant of the form observer, through any sequence of its calls.
use jcontainers_ng.Common.{
  ℕ, ◌-◌, ◌≤◌, ◌<◌, ◌≡◌, ◌≢◌, refl, ap, sym, ◌∙◌, true, false, not, ◌&&◌, ◌==◌, leb, none, some,
  ◌⊎◌, arith, Bool-cases, Option-cases, inl, inr, some-eq,
}
use mathlib.Core.Path.{subst}
use jcontainers_ng.Forms.Observer.{
  Entry, Observer, replace, make_expired, destroy, u_remove_expired_forms,
}

module _ {ℓ} {A : Type ℓ} (f : ℕ → A) (a : ℕ) (v : A) where
  pub replace-same : replace f a v a ≡ v
  replace-same = let e : (a == a) ≡ true = ground arith in rw e refl

  pub replace-other : (b : ℕ) → a ≢ b → replace f a v b ≡ f b
  replace-other b h = let e : (a == b) ≡ false = ground arith in rw e refl

  pub replace-cases :
      (b : ℕ) (w : A) → replace f a v b ≡ w → ((a ≡ b) × (v ≡ w)) ⊎ ((a ≢ b) × (f b ≡ w))
  replace-cases b w e = elim (Bool-cases (a == b)) [
    | inl same ↦ inl (ground arith, rw same at e)
    | inr other ↦ inr (ground arith, rw other at e)
  ]

-- An entry that is not deleted is the one in the map under its identifier, and the game holds its
-- handle if the entry says so.
pub record Tracks (ob : Observer) : Type 0 where
  pub unused : (a : ℕ) → ob.next_entry ≤ a → ob.entries a ≡ none
  pub mapped : (id a : ℕ) → ob.watched_forms id ≡ some a → a < ob.next_entry
  pub named :
      (id a : ℕ) (e : Entry) → ob.watched_forms id ≡ some a → ob.entries a ≡ some e → e.id ≡ id
  pub only :
      (a : ℕ) (e : Entry)
      → ob.entries a ≡ some e
      → e.deleted ≡ false
      → ob.watched_forms e.id ≡ some a
  pub held :
      (a : ℕ) (e : Entry)
      → ob.entries a ≡ some e
      → e.deleted ≡ false
      → e.is_handle_retained ≡ true
      → 0 < ob.handles e.id

abbrev pub with_entry : Observer → ℕ → Entry → Observer
with_entry ob a e = record ob { entries = replace ob.entries a (some e) }

module _ {ob : Observer} (i : Tracks ob) where
  pub used : (a : ℕ) (e : Entry) → ob.entries a ≡ some e → a < ob.next_entry
  used a e there = elim (Bool-cases (leb ob.next_entry a)) [
    | inl past ↦ (let free = i.unused a (ground arith) in cc)
    | inr below ↦ ground arith
  ]

  -- An entry changes its count, or is marked.
  pub with_entry-Tracks :
      (a : ℕ) (e e' : Entry)
      → ob.entries a ≡ some e
      → e'.id ≡ e.id
      → (e'.deleted ≡ false → e.deleted ≡ false)
      → e'.is_handle_retained ≡ e.is_handle_retained
      → Tracks (with_entry ob a e')
  with_entry-Tracks a e e' there same_id live same_held =
      let a_used = used a e there in
      record {
        unused = λ b h. replace-other ob.entries a (some e') b (omega (arith, h)) ∙ i.unused b h;
        mapped = i.mapped;
        named = λ id b d w x. elim (replace-cases ob.entries a (some e') b (some d) x) [
          | inl (same, new) ↦
              ap (λ (y : Entry). y.id) (sym (some-eq new))
              ∙ same_id
              ∙ i.named id a e (w ∙ ap some (sym same)) there
          | inr (other, old) ↦ i.named id b d w old
        ];
        only = λ b d x l. elim (replace-cases ob.entries a (some e') b (some d) x) [
          | inl (same, new) ↦
              let y = some-eq new in
              ap ob.watched_forms (ap (λ (y : Entry). y.id) (sym y) ∙ same_id)
              ∙ i.only a e there (live (ap (λ (y : Entry). y.deleted) y ∙ l))
              ∙ ap some same
          | inr (other, old) ↦ i.only b d old l
        ];
        held = λ b d x l h. elim (replace-cases ob.entries a (some e') b (some d) x) [
          | inl (same, new) ↦
              let y = some-eq new in
              subst (λ n. 0 < ob.handles n) (sym same_id ∙ ap (λ (y : Entry). y.id) y)
                (i.held a e there (live (ap (λ (y : Entry). y.deleted) y ∙ l))
                  (sym same_held ∙ ap (λ (y : Entry). y.is_handle_retained) y ∙ h))
          | inr (other, old) ↦ i.held b d old l h
        ];
      }

  pub make_expired-Tracks : (handle : ℕ) → Tracks (make_expired ob handle).1
  unfolding make_expired
  make_expired-Tracks handle =
      let new : Entry = record {
        id = handle;
        deleted = true;
        is_handle_retained = false;
        use_count = 1;
      } in
      record {
        unused = λ b h.
            replace-other ob.entries ob.next_entry (some new) b (omega (arith, h))
            ∙ i.unused b (omega (arith, h));
        mapped = λ id b w. omega (arith, i.mapped id b w);
        named = λ id b d w x.
            elim (replace-cases ob.entries ob.next_entry (some new) b (some d) x) [
              | inl (same, fresh) ↦ absurd (omega (arith, same, i.mapped id b w))
              | inr (other, old) ↦ i.named id b d w old
            ];
        only = λ b d x l. elim (replace-cases ob.entries ob.next_entry (some new) b (some d) x) [
          | inl (same, fresh) ↦
              (let y : true ≡ d.deleted = ap (λ (y : Entry). y.deleted) (some-eq fresh) in cc)
          | inr (other, old) ↦ i.only b d old l
        ];
        held = λ b d x l h. elim (replace-cases ob.entries ob.next_entry (some new) b (some d) x) [
          | inl (same, fresh) ↦
              (let y : true ≡ d.deleted = ap (λ (y : Entry). y.deleted) (some-eq fresh) in cc)
          | inr (other, old) ↦ i.held b d old l h
        ];
      }

  -- An entry is destroyed.
  pub destroy-Tracks : (a : ℕ) (e : Entry) → ob.entries a ≡ some e → Tracks (destroy ob a e)
  unfolding destroy
  destroy-Tracks a e there =
      let freed = replace ob.entries a none in
      let kept : (b : ℕ) (d : Entry) → freed b ≡ some d → (a ≢ b) × (ob.entries b ≡ some d) =
        λ b d x. elim (replace-cases ob.entries a none b (some d) x) [
          | inl (same, gone) ↦ cc
          | inr rest ↦ rest
        ] in
      let unused : (b : ℕ) → ob.next_entry ≤ b → freed b ≡ none = λ b h.
        replace-other ob.entries a none b (omega (arith, h, used a e there)) ∙ i.unused b h in
      elim (Bool-cases (not e.deleted && e.is_handle_retained)) [
        | inl release ↦ rw release (record {
          unused = unused;
          mapped = i.mapped;
          named = λ id b d w x. i.named id b d w (kept b d x).1;
          only = λ b d x l. i.only b d (kept b d x).1 l;
          held = λ b d x l h.
              let live : e.deleted ≡ false = ground arith in
              let apart : e.id ≢ d.id = λ same. (kept b d x).0 (
                some-eq (
                  sym (i.only a e there live)
                  ∙ ap ob.watched_forms same
                  ∙ i.only b d (kept b d x).1 l)) in
              rw (replace-other ob.handles e.id (ob.handles e.id - 1) d.id apart)
                (i.held b d (kept b d x).1 l h);
        })
        | inr keep ↦ rw keep (record {
          unused = unused;
          mapped = i.mapped;
          named = λ id b d w x. i.named id b d w (kept b d x).1;
          only = λ b d x l. i.only b d (kept b d x).1 l;
          held = λ b d x l h. i.held b d (kept b d x).1 l h;
        })
      ]

  pub u_remove_expired_forms-Tracks : Tracks (u_remove_expired_forms ob)
  unfolding u_remove_expired_forms
  u_remove_expired_forms-Tracks = record {
    unused = i.unused;
    mapped = λ id a w. i.mapped id a (still id a w);
    named = λ id a e w x. i.named id a e (still id a w) x;
    only = λ a e x l. (let w = i.only a e x l in rw w (rw x refl));
    held = i.held;
  }
    where
      still :
          (id a : ℕ)
          → (u_remove_expired_forms ob).watched_forms id ≡ some a
          → ob.watched_forms id ≡ some a
      still id a w = elim (Option-cases (ob.watched_forms id)) [
        | inl nothing ↦ (let w' = rw nothing at w in cc)
        | inr (b, there) ↦ elim (Option-cases (ob.entries b)) [
          | inl gone ↦ (let w' = rw gone at (rw there at w) in cc)
          | inr (e, live) ↦ (let w' = rw live at (rw there at w) in there ∙ w')
        ]
      ]
