-- ===== src/Objects/Lapse.antt =====
-- What becomes of an object that the queue alone owns, over several calls of `tick`.
use jcontainers_ng.Common.{
  ℕ, zero, suc, ◌≤◌, ◌<◌, ◌≡◌, ◌≢◌, refl, ap, sym, ◌∙◌, true, false, none, some, List, [], ◌∷◌,
  arith, ◌==◌, leb, Bool-cases, inl, inr, count,
}
use jcontainers_ng.Index.{Exec, done, ◌>>=◌}
use jcontainers_ng.Objects.{Object, Context, total_count, aqueue_release, release_due, tick}
use jcontainers_ng.Objects.Time.{time_max, time_add, is_due, ticks, due_after}
use jcontainers_ng.Objects.Invariant.{refs_at, queued_at, queued-some}
use jcontainers_ng.Objects.Release.{Owned}
use jcontainers_ng.Objects.Delete.{aqueue_release-Owned}
use jcontainers_ng.Objects.Tick.{split_due-Splits, Inv-split, release_due-Owned}
use jcontainers_ng.Objects.Frame.{Alike, aqueue_release-Alike, aqueue_release-gone, done-eq}

-- The other entries that the queue lets go of leave an object without references as it is.
release_due-Alike :
    (bs pending : List ℕ) (c c' : Context) (a : ℕ)
    → Owned c pending bs
    → refs_at c.heap a ≡ 0
    → count a bs ≡ 0
    → release_due c bs ≡ done c'
    → Alike a c c'
unfolding release_due count
release_due-Alike [] pending c c' a i z n e = rw (← done-eq e) (refl, refl)
release_due-Alike (b ∷ bs) pending c c' a i z n e =
    let (c1, r, i1) = aqueue_release-Owned c b pending bs i in
    let h : b ≢ a = λ same. absurd (ground arith) in
    let k = aqueue_release-Alike c c1 a b pending bs i z h r in
    let e' : release_due c1 bs ≡ done c' = rw (r, ◌>>=◌) at e in
    let z1 : refs_at c1.heap a ≡ 0 = rw (k.0, refs_at) z in
    let k' = release_due-Alike bs pending c1 c' a i1 z1 (omega (arith, n)) e' in
    (k'.0 ∙ k.0, k'.1 ∙ k.1)

-- An object that the queue alone owns goes when its entry does.
release_due-gone :
    (bs pending : List ℕ) (c c' : Context) (a : ℕ) (o : Object)
    → Owned c pending bs
    → c.heap a ≡ some o
    → o.ref_count ≡ 0
    → total_count o ≤ 1
    → count a bs ≡ 1
    → release_due c bs ≡ done c'
    → c'.heap a ≡ none
unfolding release_due count
release_due-gone [] pending c c' a o i there z t n e = absurd (omega (arith, n))
release_due-gone (b ∷ bs) pending c c' a o i there z t n e =
    let (c1, r, i1) = aqueue_release-Owned c b pending bs i in
    let e' : release_due c1 bs ≡ done c' = rw (r, ◌>>=◌) at e in
    elim (Bool-cases (a == b)) [
      | inl same ↦
          let y : b ≡ a = ground arith in
          let r' : aqueue_release c a ≡ done c1 = ap (aqueue_release c) (sym y) ∙ r in
          let g = aqueue_release-gone c c1 a o there t r' in
          let z1 : refs_at c1.heap a ≡ 0 = rw (g.0, refs_at) refl in
          let n1 : count a bs ≡ 0 = (let n' = rw same at n in omega (arith, n')) in
          (release_due-Alike bs pending c1 c' a i1 z1 n1 e').0 ∙ g.0
      | inr other ↦
          let h : b ≢ a = ground arith in
          let zero_refs : refs_at c.heap a ≡ 0 = rw (there, refs_at) z in
          let k = aqueue_release-Alike c c1 a b pending bs i zero_refs h r in
          let n1 : count a bs ≡ 1 = (let n' = rw other at n in omega (arith, n')) in
          release_due-gone bs pending c1 c' a o i1 (k.0 ∙ there) z t n1 e'
    ]

-- One tick, for an object that no item refers to.
record Ticked (c : Context) (a : ℕ) (o : Object) : Type 0 where
  after : Context
  runs : tick c ≡ done after
  owned : Owned after [] []
  stays :
      is_due c.tick_counter o.aqueue_push_time ≡ false
      → (after.heap a ≡ some o) × (after.tick_counter ≡ time_add c.tick_counter 1)
  goes : is_due c.tick_counter o.aqueue_push_time ≡ true → total_count o ≤ 1 → after.heap a ≡ none

tick-Ticked :
    (c : Context) (a : ℕ) (o : Object)
    → Owned c [] []
    → c.heap a ≡ some o
    → o.ref_count ≡ 0
    → o.aqueue_ref_count ≡ 1
    → Ticked c a o
unfolding tick count
tick-Ticked c a o i there z q =
    let (parts, e, s) =
      split_due-Splits c c.queue (λ b p. queued-some {a = b} i (omega (arith, i.queued b, p))) in
    let start = record c { queue = parts.0; tick_counter = time_add c.tick_counter 1 } in
    let i' : Owned start [] parts.1 = Inv-split parts i (λ b. (s b).0) in
    let (c', r, k) = release_due-Owned start parts.1 [] i' in
    let in_queue : count a c.queue ≡ 1 =
      (let mine : queued_at c.heap a ≡ o.aqueue_ref_count = rw (there, queued_at) refl in
        omega (arith, i.queued a, mine, q)) in
    let zero_refs : refs_at c.heap a ≡ 0 = rw (there, refs_at) z in
    let sides = (s a).1 o there in
    record {
      after = c';
      runs = rw (e, ◌>>=◌) r;
      owned = k;
      stays = λ d.
          (let kept = release_due-Alike parts.1 [] start c' a i' zero_refs (sides.1 d) r in
            (kept.0 ∙ there, kept.1));
      goes = λ d t.
          release_due-gone parts.1 [] start c' a o i' there z t
            (omega (arith, sides.0 d, (s a).0, in_queue)) r;
    }

-- Some calls of `tick`, one after another.
unfoldable pub run_ticks : ℕ → Context → Exec Context
run_ticks zero c = done c
run_ticks (suc n) c = run_ticks n c >>= tick

-- Until it is due, the object stays as it is.
record Waited (c : Context) (a : ℕ) (o : Object) (n : ℕ) : Type 0 where
  after : Context
  runs : run_ticks n c ≡ done after
  owned : Owned after [] []
  there : after.heap a ≡ some o
  clock : after.tick_counter ≡ ticks n c.tick_counter

module _ (c : Context) (a : ℕ) (o : Object) (i : Owned c [] []) (there : c.heap a ≡ some o)
    (z : o.ref_count ≡ 0) (q : o.aqueue_ref_count ≡ 1)
    (pushed : o.aqueue_push_time ≡ c.tick_counter) (b : c.tick_counter < time_max) where
  due_at :
      (n : ℕ) (c' : Context)
      → n ≤ 4
      → c'.tick_counter ≡ ticks n c.tick_counter
      → is_due c'.tick_counter o.aqueue_push_time ≡ leb 4 n
  due_at n c' h clock = rw (clock) (rw pushed ((due_after n c.tick_counter b (omega arith)).0))

  waits : (n : ℕ) → n ≤ 4 → Waited c a o n
  unfolding run_ticks ticks
  waits zero h = record { after = c; runs = refl; owned = i; there = there; clock = refl }
  waits (suc n) h =
      let before = waits n (omega arith) in
      let next = tick-Ticked before.after a o before.owned before.there z q in
      let early : leb 4 n ≡ false = ground arith in
      let (kept, clock) = next.stays (due_at n before.after (omega arith) before.clock ∙ early) in
      record {
        after = next.after;
        runs = rw (before.runs, ◌>>=◌) next.runs;
        owned = next.owned;
        there = kept;
        clock = clock ∙ ap (λ t. time_add t 1) before.clock;
      }

  -- An object that no item, script or stack refers to, and that was queued as public at the present
  -- clock: it is there, unchanged, after four ticks, and deleted by the fifth, without a fault.
  pub run_ticks-gone :
      total_count o ≤ 1
      → (c4 c5 : Context) × (run_ticks 4 c ≡ done c4)
        × (c4.heap a ≡ some o)
        × (run_ticks 5 c ≡ done c5)
        × (c5.heap a ≡ none)
  unfolding run_ticks
  run_ticks-gone t =
      let before = waits 4 (omega arith) in
      let next = tick-Ticked before.after a o before.owned before.there z q in
      let gone = next.goes (due_at 4 before.after (omega arith) before.clock) t in
      (before.after, next.after, before.runs, before.there, rw (before.runs, ◌>>=◌) next.runs, gone)
