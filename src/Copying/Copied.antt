-- ===== src/Copying/Copied.antt =====
-- What `unique_copy` keeps: the originals, the way back from each copy, and the copies that wait.
use jcontainers_ng.Common.{
  ℕ, zero, suc, ◌+◌, ◌≤◌, ◌<◌, ◌≡◌, refl, ap, sym, ◌∙◌, false, ◌==◌, if◌then◌else◌, Option, none,
  some, List, [], ◌∷◌, arith, length, count, Bool-cases, Option-cases, inl, inr,
}
use jcontainers_ng.Item.{Item, object, object_of}
use jcontainers_ng.Paths.{Store}
use jcontainers_ng.Copying.{Copying, find, items_of, with_items}

-- The original of a copy.
unfoldable pub origin_of : List (ℕ × ℕ) → ℕ → Option ℕ
origin_of [] copy = none
origin_of ((o, c) ∷ m) copy = let rest = origin_of m copy in if c == copy then some o else rest

-- How many of the addresses below `n` have no copy.
unfoldable pub uncopied : List (ℕ × ℕ) → ℕ → ℕ
uncopied m zero = 0
uncopied m (suc n) = (elim (find m n) [ none ↦ 1 | some c ↦ 0 ]) + uncopied m n

module _ {R : Type 0} where
  -- An item against its copy: what it refers to is replaced by its copy.
  abbrev pub CopyOf : List (ℕ × ℕ) → Item R → Item R → Type 0
  CopyOf copied i j = elim (object_of i) [
    | none ↦ j ≡ i
    | some c ↦ (c' : ℕ) × (find copied c ≡ some c') × (j ≡ object (some c'))
  ]

  abbrev pub CopiesOf : List (ℕ × ℕ) → List (Item R) → List (Item R) → Type 0
  CopiesOf copied [] [] = Unit
  CopiesOf copied (i ∷ is) (j ∷ js) = CopyOf copied i j × CopiesOf copied is js
  CopiesOf copied _ _ = ⊥

  -- The objects that the items refer to have addresses in use.
  abbrev pub AllBelow : ℕ → List (Item R) → Type 0
  AllBelow n [] = Unit
  AllBelow n (i ∷ is) = (elim (object_of i) [ none ↦ Unit | some c ↦ c < n ]) × AllBelow n is

  -- How often a copy waits: in the round that is under way, and for the next one.
  abbrev pub waits : List ℕ → Copying R → ℕ → ℕ
  waits tmp st b = count b tmp + count b st.to_traverse

  -- The container of `o` copied at `o'`.
  pub record Done (s : Store R) (st : Copying R) (o o' : ℕ) : Type 0 where
    pub items : List (Item R)
    pub written : st.store.objects o' ≡ with_items (s.objects o) items
    pub copies : CopiesOf st.copied (items_of (s.objects o)) items

  pub record Entry (s : Store R) (st : Copying R) (o o' : ℕ) : Type 0 where
    pub original : o < s.next_address
    pub new : s.next_address ≤ o'
    pub made : o' < st.store.next_address
    pub back : origin_of st.copied o' ≡ some o

  -- Between two steps of the copying of what `s` holds, with `tmp` left of the round.
  pub record Inv (s : Store R) (tmp : List ℕ) (st : Copying R) : Type 0 where
    pub room : s.next_address ≤ st.store.next_address
    pub kept : (x : ℕ) → x < s.next_address → st.store.objects x ≡ s.objects x
    pub entry : (o o' : ℕ) → find st.copied o ≡ some o' → Entry s st o o'
    pub once : (b : ℕ) → waits tmp st b ≤ 1
    pub waiting : (b : ℕ) → 0 < waits tmp st b → (o : ℕ) × (find st.copied o ≡ some b)
    pub plain :
        (o o' : ℕ)
        → find st.copied o ≡ some o'
        → 0 < waits tmp st o'
        → st.store.objects o' ≡ s.objects o
    pub ready : (o o' : ℕ) → find st.copied o ≡ some o' → waits tmp st o' ≡ 0 → Done s st o o'

  -- What a step of the copying adds.
  pub record Grows (n : ℕ) (st st' : Copying R) : Type 0 where
    pub more : (o o' : ℕ) → find st.copied o ≡ some o' → find st'.copied o ≡ some o'
    pub rank :
        uncopied st'.copied n + length st'.to_traverse
        ≡ uncopied st.copied n + length st.to_traverse

  pub CopyOf-more :
      (m m' : List (ℕ × ℕ)) (i j : Item R)
      → ((o o' : ℕ) → find m o ≡ some o' → find m' o ≡ some o')
      → CopyOf m i j
      → CopyOf m' i j
  CopyOf-more m m' i j h c = elim (Option-cases (object_of i)) [
    | inl plain ↦ rw (plain, CopyOf) (rw (plain, CopyOf) at c)
    | inr (o, refers) ↦
        let (c', f, e) = rw (refers, CopyOf) at c in rw (refers, CopyOf) (c', h o c' f, e)
  ]

  pub CopiesOf-more :
      (m m' : List (ℕ × ℕ)) (is js : List (Item R))
      → ((o o' : ℕ) → find m o ≡ some o' → find m' o ≡ some o')
      → CopiesOf m is js
      → CopiesOf m' is js
  CopiesOf-more m m' [] [] h c = tt
  CopiesOf-more m m' [] (j ∷ js) h c = absurd c
  CopiesOf-more m m' (i ∷ is) [] h c = absurd c
  CopiesOf-more m m' (i ∷ is) (j ∷ js) h c =
      (CopyOf-more m m' i j h c.0, CopiesOf-more m m' is js h c.1)

uncopied-above : (m : List (ℕ × ℕ)) (x a n : ℕ) → n ≤ x → uncopied ((x, a) ∷ m) n ≡ uncopied m n
unfolding uncopied find
uncopied-above m x a zero h = refl
uncopied-above m x a (suc n) h =
    let other : (x == n) ≡ false = ground arith in
    rw other (omega (arith, uncopied-above m x a n (omega arith)))

-- A new copy takes its original from those that have none.
pub uncopied-cons :
    (m : List (ℕ × ℕ)) (x a n : ℕ)
    → x < n
    → find m x ≡ none
    → uncopied ((x, a) ∷ m) n + 1 ≡ uncopied m n
unfolding uncopied find
uncopied-cons m x a zero h e = absurd (omega arith)
uncopied-cons m x a (suc n) h e = elim (Bool-cases (x == n)) [
  | inl same ↦
      let z : x ≡ n = ground arith in
      let here : find m n ≡ none = ap (find m) (sym z) ∙ e in
      rw same (rw here (omega (arith, uncopied-above m x a n (omega arith))))
  | inr other ↦ rw other (omega (arith, uncopied-cons m x a n (ground arith) e))
]
