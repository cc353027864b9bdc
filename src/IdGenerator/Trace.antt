-- ===== src/IdGenerator/Trace.antt =====
-- The generator with its clients: which identifiers are handed out over any run of calls.
use jcontainers_ng.Common.{
  ℕ, ◌+◌, ◌≤◌, ◌<◌, ◌≡◌, false, ◌&&◌, List, [], ◌∷◌, ◌++◌, some, leb, ◌==◌, arith, length, inl, inr,
  one_if, count, count-append,
}
use jcontainers_ng.IdGenerator.{IdGenerator, new_id, reuse_id, u_clear, id_mod}
use jcontainers_ng.IdGenerator.Covers.{covers, IsSpaced}
use jcontainers_ng.IdGenerator.Take.{new_id-Takes, new_id-current}
use jcontainers_ng.IdGenerator.Reuse.{reuse_id-covers, reuse_id-IsSpaced}
use jcontainers_ng.IdGenerator.Iterator.{reuse_id-current}

pub record State : Type 0 where
  pub generator : IdGenerator
  pub handed_out : List ℕ

-- A client takes an identifier, or gives back one that it holds while some identifier is free.
pub data Step (s t : State) : Type 0 where
  take :
      (num : ℕ)
      → new_id s.generator ≡ some (num, t.generator)
      → t.handed_out ≡ num ∷ s.handed_out
      → 0 < length t.generator.empty_ranges
      → Step s t
  give :
      (xs ys : List ℕ) (v : ℕ)
      → s.handed_out ≡ xs ++ (v ∷ ys)
      → t.generator ≡ reuse_id s.generator v
      → t.handed_out ≡ xs ++ ys
      → Step s t

pub data Run (s : State) : State → Type 0 where
  here : Run s s
  next : {t u : State} → Run s t → Step t u → Run s u

abbrev pub start : ℕ → ℕ → State
start lo hi = record { generator = u_clear lo hi; handed_out = [] }

-- Every identifier of the interval is free or handed out once, and no other is either.
pub record Inv (lo hi : ℕ) (s : State) : Type 0 where
  pub spaced : IsSpaced 0 s.generator.empty_ranges
  pub current : s.generator.current_range < length s.generator.empty_ranges
  pub once :
      (w : ℕ)
      → one_if (covers s.generator.empty_ranges w) + count w s.handed_out
        ≡ one_if (leb lo w && leb w hi)

start-Inv : (lo hi : ℕ) → 0 < lo → lo ≤ hi → hi + 1 < id_mod → Inv lo hi (start lo hi)
unfolding u_clear covers count
start-Inv lo hi p q h = record {
  spaced = omega arith;
  current = omega arith;
  once = λ w. ground arith;
}

count-middle :
    (w : ℕ) (xs ys : List ℕ) (v : ℕ)
    → count w (xs ++ (v ∷ ys)) ≡ one_if (w == v) + count w (xs ++ ys)
unfolding count
count-middle w xs ys v = omega (arith, count-append w xs (v ∷ ys), count-append w xs ys)

-- A held identifier lies in the interval and is not free.
held :
    (lo hi : ℕ) (s : State) (v : ℕ)
    → Inv lo hi s
    → 0 < count v s.handed_out
    → (lo ≤ v) × (v ≤ hi) × (covers s.generator.empty_ranges v ≡ false)
held lo hi s v i h = ground (arith, i.once v)

-- The invariant from facts about the generator that a call returns.
Inv-of_generator :
    {lo hi : ℕ} {t : State} {g : IdGenerator}
    → t.generator ≡ g
    → IsSpaced 0 g.empty_ranges
    → g.current_range < length g.empty_ranges
    → ((w : ℕ)
        → one_if (covers g.empty_ranges w) + count w t.handed_out ≡ one_if (leb lo w && leb w hi))
    → Inv lo hi t
Inv-of_generator e s c o = record { spaced = rw e s; current = rw e c; once = λ w. rw e (o w) }

module _ (lo hi : ℕ) (lo_pos : 0 < lo) (hi_max : hi + 1 < id_mod) where
  step-Inv : {s t : State} → Step s t → Inv lo hi s → Inv lo hi t
  unfolding count
  step-Inv {s} {t} (take num e o l) i =
      let k = new_id-Takes s.generator t.generator num i.spaced e in
      record {
        spaced = k.spaced;
        current = elim (new_id-current s.generator t.generator num i.spaced i.current e) [
          | inl c ↦ c
          | inr (_, z) ↦ absurd (omega arith)
        ];
        once = λ w. rw o (ground (arith, i.once w, i.once num, k.only w, k.free));
      }
  step-Inv {s} {t} (give xs ys v o g o') i =
      let split : (w : ℕ) → count w s.handed_out ≡ one_if (w == v) + count w t.handed_out =
        λ w. rw (o, o') (count-middle w xs ys v) in
      let (above, below, taken) = held lo hi s v i (ground (arith, split v)) in
      Inv-of_generator g
        (reuse_id-IsSpaced s.generator v i.spaced (omega arith) (omega arith) taken)
        (reuse_id-current s.generator v i.current)
        (λ w. ground (
          arith,
          i.once w,
          i.once v,
          split w,
          taken,
          reuse_id-covers s.generator v w i.spaced (omega arith) taken,
        ))

  keep-Inv : {s t : State} → Run s t → Inv lo hi s → Inv lo hi t
  keep-Inv here i = i
  keep-Inv (next r st) i = step-Inv st (keep-Inv r i)

-- From a generator of an interval of identifiers, 0 < lo ≤ hi below the largest word, over any
-- run of calls that take an identifier while another stays free, or give a held one back: the
-- ranges stay in order, the iterator stays inside the deque, and each identifier of the interval
-- is either free or held once, and no other is either.
pub Run-Inv :
    (lo hi : ℕ) {s : State} → 0 < lo → lo ≤ hi → hi + 1 < id_mod → Run (start lo hi) s → Inv lo hi s
Run-Inv lo hi p q h r = keep-Inv lo hi p h r (start-Inv lo hi p q h)
