-- ===== src/Forms/Calls.antt =====
-- The calls of forms/form_observer.hpp, one by one and in any sequence, and the observer's invariant.
use jcontainers_ng.Common.{
  ℕ, ◌+◌, ◌<◌, ◌≡◌, ◌≢◌, refl, ap, sym, ◌∙◌, Bool, true, false, ◌==◌, leb, if◌then◌else◌, none,
  some, ◌⊎◌, arith, Bool-cases, Option-cases, inl, inr, some-eq,
}
use jcontainers_ng.Index.{done}
use jcontainers_ng.Forms.{is_form_handle, form_handle_to_id}
use jcontainers_ng.Forms.Observer.{
  Entry, Observer, replace, make, watch_new, watch_form, on_form_deleted, copy_ref, drop_ref,
  u_clear_state, Run, starting, watching, expiring, deleting, copying, dropping, sweeping, clearing,
}
use jcontainers_ng.Forms.Watch.{
  Tracks, replace-same, replace-other, replace-cases, with_entry, with_entry-Tracks,
  make_expired-Tracks, destroy-Tracks, u_remove_expired_forms-Tracks,
}

-- No entry with this identifier is alive.
abbrev pub NoneLive : Observer → ℕ → Type 0
NoneLive ob id = (a : ℕ) (e : Entry) → ob.entries a ≡ some e → e.deleted ≡ false → e.id ≢ id

done-eq : {A : Type 0} {x y : A} → done x ≡ done y → x ≡ y
done-eq h = cc

module _ (try_retain_handle : ℕ → Bool) where
  abbrev pub new_entry : ℕ → Entry
  new_entry id = record {
    id = id;
    deleted = false;
    is_handle_retained = try_retain_handle id;
    use_count = 1;
  }

  -- The handles after a form was watched anew.
  abbrev handles_after : Observer → ℕ → ℕ → ℕ
  handles_after ob id =
      if try_retain_handle id then replace ob.handles id (ob.handles id + 1) else ob.handles

  handles_after-same :
      (ob : Observer) (id : ℕ) → try_retain_handle id ≡ true → 0 < handles_after ob id id
  handles_after-same ob id h =
      rw h (rw (replace-same ob.handles id (ob.handles id + 1)) (omega arith))

  handles_after-other : (ob : Observer) (id k : ℕ) → id ≢ k → handles_after ob id k ≡ ob.handles k
  handles_after-other ob id k h = elim (Bool-cases (try_retain_handle id)) [
    | inl held ↦ rw held (replace-other ob.handles id (ob.handles id + 1) k h)
    | inr free ↦ rw free refl
  ]

  module _ {ob : Observer} (i : Tracks ob) (id : ℕ) where
    pub watch_new-Tracks : NoneLive ob id → Tracks (watch_new try_retain_handle ob id).1
    unfolding watch_new make
    watch_new-Tracks dead =
        let n = ob.next_entry in
        let new = new_entry id in
        record {
          unused = λ b h.
              replace-other ob.entries n (some new) b (omega (arith, h))
              ∙ i.unused b (omega (arith, h));
          mapped = λ k b w. elim (replace-cases ob.watched_forms id (some n) k (some b) w) [
            | inl (same, fresh) ↦ (let y = some-eq fresh in omega (arith, y))
            | inr (other, old) ↦ omega (arith, i.mapped k b old)
          ];
          named = λ k b d w x. elim (replace-cases ob.entries n (some new) b (some d) x) [
            | inl (same, fresh) ↦ elim (replace-cases ob.watched_forms id (some n) k (some b) w) [
              | inl (hit, _) ↦ ap (λ (y : Entry). y.id) (sym (some-eq fresh)) ∙ hit
              | inr (other, old) ↦ absurd (omega (arith, same, i.mapped k b old))
            ]
            | inr (apart, there) ↦ elim (replace-cases ob.watched_forms id (some n) k (some b) w) [
              | inl (hit, fresh) ↦ absurd (apart (some-eq fresh))
              | inr (other, old) ↦ i.named k b d old there
            ]
          ];
          only = λ b d x l. elim (replace-cases ob.entries n (some new) b (some d) x) [
            | inl (same, fresh) ↦
                ap (replace ob.watched_forms id (some n))
                  (ap (λ (y : Entry). y.id) (sym (some-eq fresh)))
                ∙ replace-same ob.watched_forms id (some n)
                ∙ ap some same
            | inr (apart, there) ↦
                replace-other ob.watched_forms id (some n) d.id (λ hit. dead b d there l (sym hit))
                ∙ i.only b d there l
          ];
          held = λ b d x l h. elim (replace-cases ob.entries n (some new) b (some d) x) [
            | inl (same, fresh) ↦
                let y = some-eq fresh in
                rw (← ap (λ (y : Entry). y.id) y)
                  (handles_after-same ob id (ap (λ (y : Entry). y.is_handle_retained) y ∙ h))
            | inr (apart, there) ↦
                rw (handles_after-other ob id d.id (λ hit. dead b d there l (sym hit)))
                  (i.held b d there l h)
          ];
        }

    -- The form is watched anew, or its entry gets one more reference.
    pub watch_form-cases :
        id ≢ 0
        → ((watch_form try_retain_handle ob id ≡ watch_new try_retain_handle ob id)
            × NoneLive ob id)
          ⊎ ((a : ℕ) × (e : Entry) × (ob.watched_forms id ≡ some a)
              × (ob.entries a ≡ some e)
              × (e.deleted ≡ false)
              × (watch_form try_retain_handle ob id
                  ≡ (some a, with_entry ob a (record e { use_count = e.use_count + 1 }))))
    unfolding watch_form
    watch_form-cases z =
        let some_id : (id == 0) ≡ false = ground arith in
        elim (Option-cases (ob.watched_forms id)) [
          | inl nothing ↦ inl (
            rw (some_id, watch_form) (rw nothing refl),
            λ a e x l hit. (let w = ap ob.watched_forms (sym hit) ∙ i.only a e x l in cc),
          )
          | inr (a, mapped) ↦ elim (Option-cases (ob.entries a)) [
            | inl gone ↦ inl (
              rw (some_id, watch_form) (rw mapped (rw gone refl)),
              λ b e x l hit.
                  let y : some a ≡ some b =
                    sym mapped ∙ ap ob.watched_forms (sym hit) ∙ i.only b e x l in
                  let x' = ap ob.entries (some-eq y) ∙ x in cc,
            )
            | inr (d, there) ↦ elim (Bool-cases d.deleted) [
              | inl old ↦ inl (
                rw (some_id, watch_form) (rw mapped (rw there (rw old refl))),
                λ b e x l hit.
                    let y : some a ≡ some b =
                      sym mapped ∙ ap ob.watched_forms (sym hit) ∙ i.only b e x l in
                    let x' : some d ≡ some e = sym there ∙ ap ob.entries (some-eq y) ∙ x in
                    let l' : true ≡ false =
                      sym old ∙ ap (λ (y : Entry). y.deleted) (some-eq x') ∙ l in
                    cc,
              )
              | inr live ↦ inr (
                a,
                d,
                mapped,
                there,
                live,
                rw (some_id, watch_form) (rw mapped (rw there (rw live refl))),
              )
            ]
          ]
        ]

    pub watch_form-Tracks : Tracks (watch_form try_retain_handle ob id).1
    watch_form-Tracks = elim (Bool-cases (id == 0)) [
      | inl zero_id ↦ unfold watch_form in rw zero_id i
      | inr some_id ↦ elim (watch_form-cases (ground arith)) [
        | inl (e, dead) ↦ rw e (watch_new-Tracks dead)
        | inr (a, d, mapped, there, live, e) ↦
            rw e (with_entry-Tracks i a d _ there refl (λ l. l) refl)
      ]
    ]

  pub on_form_deleted-Tracks :
      {ob : Observer} → Tracks ob → (handle : ℕ) → Tracks (on_form_deleted ob handle)
  unfolding on_form_deleted
  on_form_deleted-Tracks {ob} i handle = elim (Bool-cases (is_form_handle handle)) [
    | inl ours ↦ rw ours (elim (Option-cases (ob.watched_forms (form_handle_to_id handle))) [
      | inl nothing ↦ rw nothing i
      | inr (a, mapped) ↦ rw mapped (elim (Option-cases (ob.entries a)) [
        | inl gone ↦ rw gone i
        | inr (e, there) ↦ rw there (with_entry-Tracks i a e _ there refl (λ l. cc) refl)
      ])
    ])
    | inr foreign ↦ rw foreign i
  ]

  copy_ref-Tracks :
      {ob ob' : Observer} → Tracks ob → (a : ℕ) → copy_ref ob a ≡ done ob' → Tracks ob'
  unfolding copy_ref
  copy_ref-Tracks {ob} i a r = elim (Option-cases (ob.entries a)) [
    | inl gone ↦ (let r' = rw (gone, copy_ref) at r in cc)
    | inr (e, there) ↦
        rw (← done-eq (rw (there, copy_ref) at r))
          (with_entry-Tracks i a e _ there refl (λ l. l) refl)
  ]

  drop_ref-Tracks :
      {ob ob' : Observer} → Tracks ob → (a : ℕ) → drop_ref ob a ≡ done ob' → Tracks ob'
  unfolding drop_ref
  drop_ref-Tracks {ob} i a r = elim (Option-cases (ob.entries a)) [
    | inl gone ↦ (let r' = rw (gone, drop_ref) at r in cc)
    | inr (e, there) ↦ elim (Bool-cases (leb e.use_count 1)) [
      | inl last ↦
          rw (← done-eq (rw last at (rw (there, drop_ref) at r))) (destroy-Tracks i a e there)
      | inr more ↦
          rw (← done-eq (rw more at (rw (there, drop_ref) at r)))
            (with_entry-Tracks i a e _ there refl (λ l. l) refl)
    ]
  ]

  u_clear_state-Tracks :
      {ob : Observer} → Tracks ob → ((a : ℕ) → ob.entries a ≡ none) → Tracks (u_clear_state ob)
  unfolding u_clear_state
  u_clear_state-Tracks i empty = record {
    unused = i.unused;
    mapped = λ id a w. cc;
    named = λ id a e w x. cc;
    only = λ a e x l. (let y = empty a in cc);
    held = i.held;
  }

  pub Run-Tracks : (ob : Observer) → Run try_retain_handle ob → Tracks ob
  Run-Tracks _ starting = record {
    unused = λ a h. refl;
    mapped = λ id a w. cc;
    named = λ id a e w x. cc;
    only = λ a e x l. cc;
    held = λ a e x l h. cc;
  }
  Run-Tracks _ (watching run id) = watch_form-Tracks (Run-Tracks _ run) id
  Run-Tracks _ (expiring run handle) = make_expired-Tracks (Run-Tracks _ run) handle
  Run-Tracks _ (deleting run handle) = on_form_deleted-Tracks (Run-Tracks _ run) handle
  Run-Tracks _ (copying run a r) = copy_ref-Tracks (Run-Tracks _ run) a r
  Run-Tracks _ (dropping run a r) = drop_ref-Tracks (Run-Tracks _ run) a r
  Run-Tracks _ (sweeping run) = u_remove_expired_forms-Tracks (Run-Tracks _ run)
  Run-Tracks _ (clearing run empty) = u_clear_state-Tracks (Run-Tracks _ run) empty
