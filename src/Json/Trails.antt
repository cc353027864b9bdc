-- ===== src/Json/Trails.antt =====
-- `path_to_object`: from an object that a container was seen to hold, the loop climbs to the root.
use mathlib.Core.List.{append_assoc, append-nil}
use jcontainers_ng.Common.{
  ℕ, zero, suc, ◌≡◌, refl, ap, sym, ◌∙◌, true, false, ◌==◌, if◌then◌else◌, Option, none, some, List,
  [], ◌∷◌, ◌++◌, arith, length, length-append, Bool-cases, Option-cases, inl, inr, ◌⊎◌,
}
use jcontainers_ng.Item.{Item, object_of}
use jcontainers_ng.Paths.{Key, Store, u_access_value}
use jcontainers_ng.Json.Keys.{KeyInfo, find_info, emplace, climb}

abbrev pub object_found : {R : Type 0} → Option (Item R) → Option ℕ
object_found none = none
object_found (some itm) = object_of itm

-- The object under a key of a container.
abbrev pub child_at : {R : Type 0} → Store R → ℕ → Key → Option ℕ
child_at s a key = object_found (u_access_value (s.objects a) key)

-- The object that a list of keys leads to.
unfoldable pub follow : {R : Type 0} → Store R → Option ℕ → List Key → Option ℕ
follow s o [] = o
follow s none (key ∷ keys) = none
follow s (some a) (key ∷ keys) = follow s (child_at s a key) keys

follow-append :
    {R : Type 0} (s : Store R) (o : Option ℕ) (keys more : List Key)
    → follow s o (keys ++ more) ≡ follow s (follow s o keys) more
unfolding follow
follow-append s o [] more = refl
follow-append s none (key ∷ keys) [] = refl
follow-append s none (key ∷ keys) (k ∷ more) = refl
follow-append s (some a) (key ∷ keys) more = follow-append s (child_at s a key) keys more

find_info-append :
    (info more : KeyInfo) (a : ℕ) (o : ℕ × Key)
    → find_info info a ≡ some o
    → find_info (info ++ more) a ≡ some o
unfolding find_info
find_info-append [] more a o h = cc
find_info-append ((b, p) ∷ info) more a o h = elim (Bool-cases (b == a)) [
  | inl same ↦ rw same (rw same at h)
  | inr other ↦ rw other (find_info-append info more a o (rw other at h))
]

find_info-snoc :
    (info : KeyInfo) (c : ℕ) (o : ℕ × Key) (a : ℕ)
    → find_info info a ≡ none
    → find_info (info ++ ((c, o) ∷ [])) a ≡ (if c == a then some o else none)
unfolding find_info
find_info-snoc [] c o a h = refl
find_info-snoc ((b, p) ∷ info) c o a h = elim (Bool-cases (b == a)) [
  | inl same ↦ cc (rw same at h)
  | inr other ↦ rw other (find_info-snoc info c o a (rw other at h))
]

emplace-old :
    (info : KeyInfo) (c : ℕ) (o p : ℕ × Key) → find_info info c ≡ some p → emplace info c o ≡ info
unfolding emplace
emplace-old info c o p h = rw (h, emplace) refl

emplace-new :
    (info : KeyInfo) (c : ℕ) (o : ℕ × Key)
    → find_info info c ≡ none
    → emplace info c o ≡ info ++ ((c, o) ∷ [])
unfolding emplace
emplace-new info c o h = rw (h, emplace) refl

module _ {R : Type 0} (s : Store R) (root : ℕ) where
  -- From `a` the root is at most so many containers away.
  abbrev pub Climbs : KeyInfo → ℕ → ℕ → Type 0
  Climbs info zero a = (a == root) ≡ true
  Climbs info (suc k) a =
      ((a == root) ≡ true)
      ⊎ (((a == root) ≡ false)
          × (owner : ℕ) × (key : Key) × (find_info info a ≡ some (owner, key))
          × (child_at s owner key ≡ some a)
          × Climbs info k owner)

  abbrev pub Known : KeyInfo → ℕ → Type 0
  Known info a = ((a == root) ≡ true) ⊎ ((o : ℕ × Key) × (find_info info a ≡ some o))

  abbrev pub AllClimb : KeyInfo → Type 0
  AllClimb info = (a : ℕ) → Known info a → Climbs info (length info) a

  Climbs-suc : (info : KeyInfo) (k a : ℕ) → Climbs info k a → Climbs info (suc k) a
  Climbs-suc info zero a h = inl h
  Climbs-suc info (suc k) a (inl h) = inl h
  Climbs-suc info (suc k) a (inr (n, owner, key, f, c, h)) =
      inr (n, owner, key, f, c, Climbs-suc info k owner h)

  Climbs-append : (info more : KeyInfo) (k a : ℕ) → Climbs info k a → Climbs (info ++ more) k a
  Climbs-append info more zero a h = h
  Climbs-append info more (suc k) a (inl h) = inl h
  Climbs-append info more (suc k) a (inr (n, owner, key, f, c, h)) =
      inr (n, owner, key, find_info-append info more a _ f, c, Climbs-append info more k owner h)

  pub Known-emplace :
      (info : KeyInfo) (c : ℕ) (o : ℕ × Key) (a : ℕ) → Known info a → Known (emplace info c o) a
  unfolding emplace
  Known-emplace info c o a (inl h) = inl h
  Known-emplace info c o a (inr (p, f)) = elim (Option-cases (find_info info c)) [
    | inl new ↦ rw (new, emplace) (inr (p, find_info-append info _ a p f))
    | inr (q, old) ↦ rw (old, emplace) (inr (p, f))
  ]

  pub Known-emplaced : (info : KeyInfo) (c : ℕ) (o : ℕ × Key) → Known (emplace info c o) c
  unfolding emplace
  Known-emplaced info c o = elim (Option-cases (find_info info c)) [
    | inl new ↦
        let self : (c == c) ≡ true = ground arith in
        rw (new, emplace) (inr (o, find_info-snoc info c o c new ∙ rw self refl))
    | inr (q, old) ↦ rw (old, emplace) (inr (q, old))
  ]

  length-snoc : {A : Type 0} (xs : List A) (x : A) → length (xs ++ (x ∷ [])) ≡ suc (length xs)
  length-snoc xs x = omega (arith, length-append xs (x ∷ []))

  AllClimb-snoc :
      (info : KeyInfo) (c owner : ℕ) (key : Key)
      → find_info info c ≡ none
      → AllClimb info
      → Known info owner
      → child_at s owner key ≡ some c
      → AllClimb (info ++ ((c, (owner, key)) ∷ []))
  AllClimb-snoc info c owner key new all known held a (inl h) =
      rw (length-snoc info (c, (owner, key))) (inl h)
  AllClimb-snoc info c owner key new all known held a (inr (p, f)) =
      rw (length-snoc info (c, (owner, key))) (elim (Bool-cases (a == root)) [
        | inl is_root ↦ inl is_root
        | inr below ↦ elim (Option-cases (find_info info a)) [
          | inr (q, old) ↦
              Climbs-suc more (length info) a
                (Climbs-append info _ (length info) a (all a (inr (q, old))))
          | inl none_yet ↦
              let last = sym (find_info-snoc info c (owner, key) a none_yet) ∙ f in
              elim (Bool-cases (c == a)) [
                | inr other ↦ cc (rw other at last)
                | inl same ↦
                    let e : a ≡ c = ground arith in
                    inr (
                      below,
                      owner,
                      key,
                      find_info-snoc info c (owner, key) a none_yet ∙ rw same refl,
                      held ∙ ap some (sym e),
                      Climbs-append info _ (length info) owner (all owner known),
                    )
              ]
        ]
      ])
    where
      more : KeyInfo
      more = info ++ ((c, (owner, key)) ∷ [])

  -- A container that climbs to the root gives the objects that it holds a way there.
  pub AllClimb-emplace :
      (info : KeyInfo) (c owner : ℕ) (key : Key)
      → AllClimb info
      → Known info owner
      → child_at s owner key ≡ some c
      → AllClimb (emplace info c (owner, key))
  AllClimb-emplace info c owner key all known held = elim (Option-cases (find_info info c)) [
    | inr (q, old) ↦ rw (emplace-old info c (owner, key) q old) all
    | inl new ↦
        rw (emplace-new info c (owner, key) new) (AllClimb-snoc info c owner key new all known held)
  ]

  climb_step :
      (info : KeyInfo) (k a owner : ℕ) (key : Key) (keys : List Key)
      → (a == root) ≡ false
      → find_info info a ≡ some (owner, key)
      → climb (suc k) info root a keys ≡ climb k info root owner (key ∷ keys)
  unfolding climb
  climb_step info k a owner key keys n f = rw (n, climb) (rw f refl)

  climb_onto :
      (info : KeyInfo) (k a : ℕ)
      → Climbs info k a
      → (path : List Key) × ((keys : List Key) → climb k info root a keys ≡ some (path ++ keys))
        × (follow s (some root) path ≡ some a)
  unfolding climb follow
  climb_onto info zero a h = ([], λ keys. rw (h, climb) refl, ap some (ground arith))
  climb_onto info (suc k) a (inl h) = ([], λ keys. rw (h, climb) refl, ap some (ground arith))
  climb_onto info (suc k) a (inr (n, owner, key, f, c, h)) =
      let (path, keys_of, leads) = climb_onto info k owner h in
      (
        path ++ (key ∷ []),
        λ keys.
            climb_step info k a owner key keys n f
            ∙ keys_of (key ∷ keys)
            ∙ ap some (sym (append_assoc path (key ∷ []) keys)),
        follow-append s (some root) path (key ∷ []) ∙ rw leads c,
      )

  -- The keys that the climb gives lead back from the root to the object.
  pub climb-follow :
      (info : KeyInfo) (a : ℕ)
      → AllClimb info
      → Known info a
      → (path : List Key) × (climb (length info) info root a [] ≡ some path)
        × (follow s (some root) path ≡ some a)
  climb-follow info a all known =
      let (path, keys_of, leads) = climb_onto info (length info) a (all a known) in
      (path, keys_of [] ∙ ap some (append-nil path), leads)
