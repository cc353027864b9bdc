-- ===== src/Forms/Deleted.antt =====
-- `watch_form` and `on_form_deleted` of forms/form_observer.hpp: who shares an entry, and what a
-- reference reads after its form was deleted.
use jcontainers_ng.Common.{
  ℕ, ◌+◌, ◌≡◌, ◌≢◌, refl, ap, sym, ◌∙◌, Bool, false, some, arith, inl, inr, some-eq,
}
use jcontainers_ng.Forms.Observer.{Entry, Observer, make, watch_new, watch_form, get, Run}
use jcontainers_ng.Forms.Watch.{Tracks, replace-same, replace-other, with_entry}
use jcontainers_ng.Forms.Calls.{new_entry, watch_form-cases, watch_form-Tracks, Run-Tracks}

get-live :
    (ob : Observer) (a : ℕ) (e : Entry)
    → ob.entries a ≡ some e
    → e.deleted ≡ false
    → get ob (some a) ≡ e.id
unfolding get
get-live ob a e there live = rw (there, get) (rw live refl)

module _ (try_retain_handle : ℕ → Bool) where
  -- What a call of `watch_form` answers.
  record Watches (ob : Observer) (id : ℕ) : Type 0 where
    ref : ℕ
    after : Observer
    runs : watch_form try_retain_handle ob id ≡ (some ref, after)
    entry : Entry
    there : after.entries ref ≡ some entry
    live : entry.deleted ≡ false
    named : entry.id ≡ id
    mapped : after.watched_forms id ≡ some ref
    before : (d : Entry) → ob.entries ref ≡ some d → d.deleted ≡ false
    others : (b : ℕ) → b ≢ ref → after.entries b ≡ ob.entries b

  watch_form-Watches : (ob : Observer) (id : ℕ) → Tracks ob → id ≢ 0 → Watches ob id
  unfolding watch_new make
  watch_form-Watches ob id i z = elim (watch_form-cases try_retain_handle i id z) [
    | inl (e, dead) ↦
        let n = ob.next_entry in
        let new = new_entry try_retain_handle id in
        record {
          ref = n;
          after = (watch_new try_retain_handle ob id).1;
          runs = e;
          entry = new;
          there = replace-same ob.entries n (some new);
          live = refl;
          named = refl;
          mapped = replace-same ob.watched_forms id (some n);
          before = λ d x. (let free = i.unused n (omega arith) in cc);
          others = λ b h. replace-other ob.entries n (some new) b (λ s. h (sym s));
        }
    | inr (a, d, mapped, there, live, e) ↦
        let more : Entry = record d { use_count = d.use_count + 1 } in
        record {
          ref = a;
          after = with_entry ob a more;
          runs = e;
          entry = more;
          there = replace-same ob.entries a (some more);
          live = live;
          named = i.named id a d mapped there;
          mapped = mapped;
          before = λ c x.
              (let y : d ≡ c = some-eq (sym there ∙ x) in
                ap (λ (y : Entry). y.deleted) (sym y) ∙ live);
          others = λ b h. replace-other ob.entries a (some more) b (λ s. h (sym s));
        }
  ]

  -- On an observer that calls lead to, watching a form answers a reference that reads as it, and
  -- watching it again answers the same reference.
  pub watch_form-twice :
      (ob : Observer) (id : ℕ)
      → Run try_retain_handle ob
      → id ≢ 0
      → (a : ℕ) × (ob' : Observer) × (watch_form try_retain_handle ob id ≡ (some a, ob'))
        × (get ob' (some a) ≡ id)
        × ((watch_form try_retain_handle ob' id).0 ≡ some a)
  watch_form-twice ob id run z =
      let i = Run-Tracks try_retain_handle ob run in
      let w = watch_form-Watches ob id i z in
      let i' : Tracks w.after = rw (w.runs) at (watch_form-Tracks try_retain_handle i id) in
      (
        w.ref,
        w.after,
        w.runs,
        get-live w.after w.ref w.entry w.there w.live ∙ w.named,
        elim (watch_form-cases try_retain_handle i' id z) [
          | inl (e, dead) ↦ absurd (dead w.ref w.entry w.there w.live w.named)
          | inr (a, d, mapped, there, live, e) ↦ rw e (sym mapped ∙ w.mapped)
        ],
      )
