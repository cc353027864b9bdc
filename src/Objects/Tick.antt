-- ===== src/Objects/Tick.antt =====
-- `tick`: the queue lets go of what is due.
use jcontainers_ng.Common.{
  ℕ, ◌+◌, ◌<◌, ◌≡◌, refl, ap, sym, ◌∙◌, true, false, some, List, [], ◌∷◌, arith, ◌==◌,
  if◌then◌else◌, Bool-cases, inl, inr, count, some-eq, true≢false,
}
use jcontainers_ng.Index.{done, ◌>>=◌}
use jcontainers_ng.Objects.{Object, Context, split_due, release_due, tick}
use jcontainers_ng.Objects.Time.{time_add, is_due}
use jcontainers_ng.Objects.Invariant.{Heap, Inv, queued-some}
use jcontainers_ng.Objects.Release.{Owned, load-some}
use jcontainers_ng.Objects.Delete.{aqueue_release-Owned, one_self}

-- Every entry is read, and stays or goes by its own age.
abbrev pub Splits : Context → List ℕ → List ℕ × List ℕ → Type 0
Splits c as' parts =
    (b : ℕ)
    → (count b parts.0 + count b parts.1 ≡ count b as')
      × ((o : Object)
          → c.heap b ≡ some o
          → (is_due c.tick_counter o.aqueue_push_time ≡ true → count b parts.0 ≡ 0)
            × (is_due c.tick_counter o.aqueue_push_time ≡ false → count b parts.1 ≡ 0))

-- An entry other than `b` leaves the counts of `b` alone; `b` itself is counted on its side.
split-cons :
    (c : Context) (a : ℕ) (o : Object) (as' : List ℕ) (parts : List ℕ × List ℕ)
    → c.heap a ≡ some o
    → Splits c as' parts
    → Splits c (a ∷ as') (
        if is_due c.tick_counter o.aqueue_push_time
        then (parts.0, a ∷ parts.1)
        else (a ∷ parts.0, parts.1))
unfolding count
split-cons c a o as' parts e s b = elim (Bool-cases (is_due c.tick_counter o.aqueue_push_time)) [
  | inl go ↦ rw go (
    omega (arith, (s b).0),
    λ o' e'. (
      λ d. ((s b).1 o' e').0 d,
      λ d. elim (Bool-cases (b == a)) [
        | inl same ↦
            let z : b ≡ a = ground arith in
            let q : o' ≡ o = some-eq (sym e' ∙ ap c.heap z ∙ e) in
            absurd (true≢false (sym go ∙ rw (← q) d))
        | inr other ↦ (let k = ((s b).1 o' e').1 d in rw other (omega (arith, k)))
      ],
    ),
  )
  | inr stay ↦ rw stay (
    omega (arith, (s b).0),
    λ o' e'. (
      λ d. elim (Bool-cases (b == a)) [
        | inl same ↦
            let z : b ≡ a = ground arith in
            let q : o' ≡ o = some-eq (sym e' ∙ ap c.heap z ∙ e) in
            absurd (true≢false (sym d ∙ rw q stay))
        | inr other ↦ (let k = ((s b).1 o' e').0 d in rw other (omega (arith, k)))
      ],
      λ d. ((s b).1 o' e').1 d,
    ),
  )
]

pub split_due-Splits :
    (c : Context) (as' : List ℕ)
    → ((b : ℕ) → 0 < count b as' → (o : Object) × (c.heap b ≡ some o))
    → (parts : List ℕ × List ℕ) × (split_due c as' ≡ done parts) × Splits c as' parts
unfolding split_due count
split_due-Splits c [] h = (([], []), refl, λ b. (omega arith, λ o e. (λ d. refl, λ d. refl)))
split_due-Splits c (a ∷ as') h =
    let (o, e) = h a (omega (arith, one_self a)) in
    let (parts, r, s) = split_due-Splits c as' (λ b p. h b (omega (arith, p))) in
    (_, rw (load-some c a o e) (rw (r, ◌>>=◌) refl), split-cons c a o as' parts e s)

pub release_due-Owned :
    (c : Context) (as' pending : List ℕ)
    → Owned c pending as'
    → (c' : Context) × (release_due c as' ≡ done c') × Owned c' pending []
unfolding release_due
release_due-Owned c [] pending i = (c, refl, i)
release_due-Owned c (a ∷ as') pending i =
    let (c', e, i') = aqueue_release-Owned c a pending as' i in
    let (c'', e', i'') = release_due-Owned c' as' pending i' in (c'', rw (e, ◌>>=◌) e', i'')

pub Inv-split :
    {h : Heap} {all queue pending : List ℕ} (parts : List ℕ × List ℕ)
    → Inv h all queue pending []
    → ((b : ℕ) → count b parts.0 + count b parts.1 ≡ count b queue)
    → Inv h all parts.0 pending parts.1
unfolding count
Inv-split parts i s = record {
  live = i.live;
  refs = i.refs;
  queued = λ b. i.queued b ∙ omega (arith, s b);
}

-- In a context whose counts agree with its items and its queue, a tick of the clock reaches no
-- freed object, and leaves such a context.
pub tick-Owned :
    (c : Context) → Owned c [] [] → (c' : Context) × (tick c ≡ done c') × Owned c' [] []
unfolding tick count
tick-Owned c i =
    let (parts, e, s) =
      split_due-Splits c c.queue (λ b p. queued-some {a = b} i (omega (arith, i.queued b))) in
    let start = record c { queue = parts.0; tick_counter = time_add c.tick_counter 1 } in
    let (c', r, k) = release_due-Owned start parts.1 [] (Inv-split parts i (λ b. (s b).0)) in
    (c', rw (e, ◌>>=◌) r, k)
