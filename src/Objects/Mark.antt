-- ===== src/Objects/Mark.antt =====
-- `findNonReachable` of object/garbage_collector.h.
use jcontainers_ng.Common.{
  ℕ, zero, suc, ◌+◌, ◌≤◌, ◌<◌, ◌≡◌, refl, ap, sym, ◌∙◌, some, List, [], ◌∷◌, ◌++◌, arith, ◌==◌,
  Bool-cases, inl, inr, ◌⊎◌, count, count-append, length, length-append, ltb, some-eq,
}
use mathlib.Core.List.{append-nil}
use jcontainers_ng.Index.{done, ◌>>=◌}
use jcontainers_ng.Objects.{Object, Context, remove_address}
use jcontainers_ng.Objects.Collector.{is_member, visit, visit_each, visit_round, visit_all}
use jcontainers_ng.Objects.Release.{load-some}
use jcontainers_ng.Objects.Delete.{count-remove, one_self}

is_member-count : (a : ℕ) (bs : List ℕ) → is_member a bs ≡ ltb 0 (count a bs)
unfolding is_member count
is_member-count a [] = refl
is_member-count a (b ∷ bs) = ground (arith, is_member-count a bs)

length-remove :
    (a : ℕ) (bs : List ℕ) → 0 < count a bs → length (remove_address a bs) + 1 ≡ length bs
unfolding remove_address count
length-remove a [] h = absurd (omega arith)
length-remove a (b ∷ bs) h = elim (Bool-cases (a == b)) [
  | inl same ↦ rw same (omega arith)
  | inr other ↦
      rw other (let h' = rw other at h in omega (arith, length-remove a bs (omega (arith, h'))))
]

-- The state of the search: `left` was not reached, `line` is to be visited.
pub record Search (c : Context) (left line : List ℕ) : Type 0 where
  pub once : (b : ℕ) → count b left ≤ count b c.all_objects
  pub single : (b : ℕ) → count b left ≤ 1
  pub alive : (b : ℕ) → 0 < count b line → (o : Object) × (c.heap b ≡ some o)
  pub closed :
      (x : ℕ) (o : Object)
      → c.heap x ≡ some o
      → count x left ≡ 0
      → (0 < count x line) ⊎ ((b : ℕ) → 0 < count b o.items → count b left ≡ 0)

-- What a step of the search does to the two lists.
record Grows (left line left' line' : List ℕ) : Type 0 where
  fewer : (b : ℕ) → count b left' ≤ count b left
  more : (b : ℕ) → count b line ≤ count b line'
  steady : length left' + length line' ≡ length left + length line

Grows-refl : (left line : List ℕ) → Grows left line left line
Grows-refl left line = record { fewer = λ b. omega arith; more = λ b. omega arith; steady = refl }

Grows-trans :
    {l1 n1 l2 n2 l3 n3 : List ℕ} → Grows l1 n1 l2 n2 → Grows l2 n2 l3 n3 → Grows l1 n1 l3 n3
Grows-trans g h = record {
  fewer = λ b. omega (arith, g.fewer b, h.fewer b);
  more = λ b. omega (arith, g.more b, h.more b);
  steady = h.steady ∙ g.steady;
}

module _ (c : Context) where
  -- A visit, with the rest of the round in `rest`.
  visit-Search :
      (b : ℕ) (left rest line : List ℕ) (o : Object)
      → Search c left (rest ++ line)
      → c.heap b ≡ some o
      → let s = visit b (left, line) in
        Search c s.0 (rest ++ s.1) × Grows left line s.0 s.1 × (count b s.0 ≡ 0)
  unfolding visit count
  visit-Search b left rest line o s e = elim (Bool-cases (is_member b left)) [
    | inl in_left ↦
        let there : 0 < count b left = ground (arith, is_member-count b left) in
        let gone = λ (x : ℕ). count-remove b x left there in
        let joined = λ (x : ℕ). count-append x rest (line ++ (b ∷ [])) in
        let old = λ (x : ℕ). count-append x rest line in
        let last = λ (x : ℕ). count-append x line (b ∷ []) in
        rw in_left (
          record {
            once = λ x. omega (arith, s.once x, gone x);
            single = λ x. omega (arith, s.single x, gone x);
            alive = λ x p. elim (Bool-cases (x == b)) [
              | inl same ↦ let z : x ≡ b = ground arith in (o, ap c.heap z ∙ e)
              | inr other ↦ s.alive x (ground (arith, joined x, old x, last x))
            ];
            closed = λ x o' e' n. elim (Bool-cases (x == b)) [
              | inl same ↦ inl (ground (arith, joined x, last x))
              | inr other ↦ elim (s.closed x o' e' (ground (arith, gone x))) [
                | inl waits ↦ inl (omega (arith, waits, joined x, old x, last x))
                | inr all_out ↦ inr (λ y p. omega (arith, all_out y p, gone y))
              ]
            ];
          },
          record {
            fewer = λ x. omega (arith, gone x);
            more = λ x. omega (arith, last x);
            steady = omega (arith, length-remove b left there, length-append line (b ∷ []));
          },
          omega (arith, gone b, one_self b, s.single b),
        )
    | inr not_left ↦ rw not_left (s, Grows-refl left line, ground (arith, is_member-count b left))
  ]

  visit_each-Search :
      (bs left rest line : List ℕ)
      → Search c left (rest ++ line)
      → ((b : ℕ) → 0 < count b bs → (o : Object) × (c.heap b ≡ some o))
      → let s = visit_each bs (left, line) in
        Search c s.0 (rest ++ s.1)
        × Grows left line s.0 s.1
        × ((b : ℕ) → 0 < count b bs → count b s.0 ≡ 0)
  unfolding visit_each count
  visit_each-Search [] left rest line s live =
      (s, Grows-refl left line, λ b p. absurd (omega arith))
  visit_each-Search (x ∷ bs) left rest line s live =
      let (o, e) = live x (omega (arith, one_self x)) in
      let (s', g, z) = visit-Search x left rest line o s e in
      let mid = visit x (left, line) in
      let (s'', g', z') = visit_each-Search bs mid.0 rest mid.1 s' (λ b p. live b (omega arith)) in
      (
        s'',
        Grows-trans g g',
        λ b p. elim (Bool-cases (b == x)) [
          | inl same ↦ let w : b ≡ x = ground arith in rw w (omega (arith, g'.fewer x, z))
          | inr other ↦ let p' = rw other at p in z' b (omega (arith, p'))
        ],
      )

  -- The object at the head of the round is done once all that it refers to is out.
  Search-drop :
      (a : ℕ) (left line : List ℕ) (o : Object)
      → Search c left (a ∷ line)
      → c.heap a ≡ some o
      → ((b : ℕ) → 0 < count b o.items → count b left ≡ 0)
      → Search c left line
  unfolding count
  Search-drop a left line o s e out = record {
    once = s.once;
    single = s.single;
    alive = λ b p. s.alive b (omega (arith, p));
    closed = λ x o' e' n. elim (Bool-cases (x == a)) [
      | inl same ↦
          let z : x ≡ a = ground arith in
          let q : o' ≡ o = some-eq (sym e' ∙ ap c.heap z ∙ e) in inr (λ b p. out b (rw (← q) p))
      | inr other ↦ elim (s.closed x o' e' n) [
        | inl waits ↦ let w = rw other at waits in inl (omega (arith, w))
        | inr all_out ↦ inr all_out
      ]
    ];
  }

  module _
      (kids : (a : ℕ) (o : Object)
        → c.heap a ≡ some o
        → (b : ℕ) → 0 < count b o.items
        → (o' : Object) × (c.heap b ≡ some o')) where
    visit_round-Search :
        (as' left line : List ℕ)
        → Search c left (as' ++ line)
        → (t : List ℕ × List ℕ) × (visit_round c as' (left, line) ≡ done t)
          × Search c t.0 t.1
          × Grows left line t.0 t.1
    unfolding visit_round count
    visit_round-Search [] left line s = ((left, line), refl, s, Grows-refl left line)
    visit_round-Search (a ∷ as') left line s =
        let (o, e) = s.alive a (omega (arith, one_self a)) in
        let (s', g, out) = visit_each-Search o.items left (a ∷ as') line s (kids a o e) in
        let mid = visit_each o.items (left, line) in
        let (t, r, s'', g') =
          visit_round-Search as' mid.0 mid.1 (Search-drop a mid.0 (as' ++ mid.1) o s' e out) in
        (t, rw (load-some c a o e) r, s'', Grows-trans g g')

    -- More fuel than objects that were not reached is enough for the loop to end.
    pub visit_all-Search :
        (fuel : ℕ) (left line : List ℕ)
        → Search c left line
        → (0 < length line → length left < fuel)
        → (garbage : List ℕ) × (visit_all c fuel (left, line) ≡ done (some garbage))
          × Search c garbage []
          × ((b : ℕ) → count b garbage ≤ count b left)
    unfolding visit_all
    visit_all-Search zero left [] s f = (left, refl, s, λ b. omega arith)
    visit_all-Search (suc fuel) left [] s f = (left, refl, s, λ b. omega arith)
    visit_all-Search zero left (a ∷ line) s f = absurd (omega (arith, f (omega arith)))
    visit_all-Search (suc fuel) left (a ∷ line) s f =
        let (t, r, s', g) = visit_round-Search (a ∷ line) left [] (rw append-nil s) in
        let (garbage, r', s'', k) =
          visit_all-Search fuel t.0 t.1 s' (λ p. omega (arith, f (omega arith), g.steady)) in
        (garbage, rw (r, ◌>>=◌) r', s'', λ b. omega (arith, k b, g.fewer b))
