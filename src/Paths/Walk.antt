-- ===== src/Paths/Walk.antt =====
-- `retrieve` with its constant accessor: the search ends, and it is a walk along the path's segments.
use jcontainers_ng.Common.{
  ℕ, zero, suc, ◌≤◌, ◌<◌, ◌≡◌, refl, true, false, Option, none, some, List, [], ◌∷◌, arith, length,
  Bool-cases, Option-cases, inl, inr, ◌⊎◌,
}
use jcontainers_ng.Index.{Exec, done, fault, ◌>>=◌}
use jcontainers_ng.Item.{Item, object_of}
use jcontainers_ng.Forms.Strings.{Mods}
use jcontainers_ng.Paths.{Key, Store, u_access_value}
use jcontainers_ng.Paths.Parse.{KeyAndRest, parse_range, parse_path}
use jcontainers_ng.Paths.Access.{
  AccessInfo, is_empty, get_value_or, constant_access, recurs, retrieve,
}
use jcontainers_ng.Paths.Segments.{
  Segment, named, indexed, key_of, print_path, AreWritable, left, parse_range-shorter,
  parse_range-print_segment,
}

-- The call ends: by a fault, or with an answer.
abbrev pub Ends : {A : Type 0} → Exec (Option A) → Type 0
Ends fault = Unit
Ends (done none) = ⊥
Ends (done (some a)) = Unit

pub Exec-cases : {A : Type 0} (r : Exec A) → (r ≡ fault) ⊎ ((a : A) × (r ≡ done a))
Exec-cases (done a) = inr (a, refl)
Exec-cases fault = inl refl

-- What is left after a key.
abbrev left_after : Option KeyAndRest → ℕ
left_after none = 0
left_after (some k) = left k.rest_of_path

parse_path-left :
    (mods : Mods) (tail : List ℕ) (path : Option (List ℕ)) (k : Option KeyAndRest)
    → parse_path mods tail path ≡ done k
    → 0 < left path
    → left_after k < left path
unfolding parse_path
parse_path-left mods tail none k e h = cc
parse_path-left mods tail (some path) none e h = h
parse_path-left mods tail (some path) (some k) e h = parse_range-shorter mods tail path k (cc)

left_zero : (path : Option (List ℕ)) → left path ≤ 0 → is_empty path ≡ true
left_zero none h = absurd (omega arith)
left_zero (some []) h = refl
left_zero (some (c ∷ s)) h = absurd (omega arith)

pub left_pos : (path : Option (List ℕ)) → is_empty path ≡ false → 0 < left path
left_pos none e = omega arith
left_pos (some []) e = cc
left_pos (some (c ∷ s)) e = omega arith

parse_range-left :
    (mods : Mods) (tail path : List ℕ) → left_after (parse_range mods tail path) ≤ length path
parse_range-left mods tail path = elim (Option-cases (parse_range mods tail path)) [
  | inl e ↦ rw e (omega arith)
  | inr (k, e) ↦ rw e (omega (arith, parse_range-shorter mods tail path k e))
]

module _ {R : Type 0} (mods : Mods) (tail : List ℕ)
    (access : Store R → ℕ → Option KeyAndRest → Exec (Option (Option ℕ) × Store R)) where
  recurs-Ends :
      (fuel : ℕ) (s : Store R) (value : Option (Option ℕ)) (k : Option KeyAndRest) (source : ℕ)
      → left_after k ≤ fuel
      → Ends (recurs mods tail access fuel s value k source)
  unfolding recurs
  recurs-Ends zero s value none source h = tt
  recurs-Ends (suc fuel) s value none source h = tt
  recurs-Ends zero s value (some k) source h = rw (left_zero k.rest_of_path h, recurs) tt
  recurs-Ends (suc fuel) s value (some k) source h = elim (Bool-cases (is_empty k.rest_of_path)) [
    | inl last ↦ rw (last, recurs) tt
    | inr more ↦ elim (Option-cases (get_value_or value)) [
      | inl nothing ↦ rw (more, recurs) (rw nothing tt)
      | inr (o, there) ↦ elim (Exec-cases (parse_path mods tail k.rest_of_path)) [
        | inl bad ↦ rw (more, recurs) (rw there (rw (bad, ◌>>=◌) tt))
        | inr (next, read) ↦ elim (Exec-cases (access s o next)) [
          | inl bad ↦ rw (more, recurs) (rw there (rw (read, ◌>>=◌) (rw (bad, ◌>>=◌) tt)))
          | inr (r, got) ↦
              let fewer =
                parse_path-left mods tail k.rest_of_path next read (left_pos k.rest_of_path more) in
              rw (more, recurs)
                (rw there (
                  rw (read, ◌>>=◌)
                    (rw (got, ◌>>=◌) (recurs-Ends fuel r.1 r.0 next o (omega (arith, fewer))))))
        ]
      ]
    ]
  ]

  pub retrieve-Ends :
      (s : Store R) (collection : ℕ) (path : List ℕ)
      → Ends (retrieve mods tail access (length path) s collection path)
  unfolding retrieve parse_path
  retrieve-Ends s collection path =
      let k = parse_range mods tail path in
      elim (Exec-cases (access s collection k)) [
        | inl bad ↦ rw (bad, ◌>>=◌) tt
        | inr (r, got) ↦
            rw (got, ◌>>=◌)
              (recurs-Ends (length path) r.1 r.0 k collection (parse_range-left mods tail path))
      ]

-- Following the keys from container to container, up to the last one.
unfoldable pub walk : {R : Type 0} → Store R → ℕ → Segment → List Segment → Option AccessInfo
walk s collection g [] = some (record { collection = collection; key = key_of g })
walk s collection g (g' ∷ gs) = elim (u_access_value (s.objects collection) (key_of g)) [
  | none ↦ none
  | some itm ↦ elim (object_of itm) [ none ↦ none | some o ↦ walk s o g' gs ]
]

-- The value at the end of a walk.
unfoldable pub walk_value : {R : Type 0} → Store R → ℕ → Segment → List Segment → Option (Item R)
walk_value s collection g gs = elim (walk s collection g gs) [
  | none ↦ none
  | some info ↦ u_access_value (s.objects info.collection) info.key
]

-- What the constant accessor finds at a key.
value_at : {R : Type 0} → Store R → ℕ → Key → Option (Option ℕ)
value_at s collection key = elim (u_access_value (s.objects collection) key) [
  | none ↦ none
  | some itm ↦ some (object_of itm)
]

print_path-more : (g : Segment) (gs : List Segment) → is_empty (some (print_path (g ∷ gs))) ≡ false
print_path-more (named s) gs = refl
print_path-more (indexed t i) gs = refl

module _ {R : Type 0} (mods : Mods) (tail : List ℕ) (s : Store R) where
  constant_access-some :
      (collection : ℕ) (k : KeyAndRest)
      → constant_access mods tail s collection (some k) ≡ done (value_at s collection k.key, s)
  unfolding constant_access value_at
  constant_access-some collection k = ground arith

  recurs-walk :
      (gs : List Segment) (g : Segment) (fuel collection : ℕ)
      → AreWritable gs
      → length (print_path gs) ≤ fuel
      → recurs mods tail
          (constant_access mods tail)
          fuel
          s
          (value_at s collection (key_of g))
          (some (record { key = key_of g; rest_of_path = some (print_path gs) }))
          collection
        ≡ done (some (walk s collection g gs, s))
  unfolding recurs walk value_at parse_path
  recurs-walk [] g zero collection w h = refl
  recurs-walk [] g (suc fuel) collection w h = refl
  recurs-walk (g' ∷ gs) g zero collection w h =
      absurd (omega (arith, left_pos (some (print_path (g' ∷ gs))) (print_path-more g' gs)))
  recurs-walk (g' ∷ gs) g (suc fuel) collection w h =
      let more = print_path-more g' gs in
      elim (Option-cases (u_access_value (s.objects collection) (key_of g))) [
        | inl missing ↦ rw (more, recurs) (rw (missing, value_at, walk) refl)
        | inr (itm, there) ↦ elim (Option-cases (object_of itm)) [
          | inl plain ↦ rw (more, recurs) (rw (there, value_at, walk) (rw plain refl))
          | inr (o, refers) ↦
              let read = parse_range-print_segment mods tail g' gs w.0 in
              let next : KeyAndRest = record {
                key = key_of g';
                rest_of_path = some (print_path gs);
              } in
              let shorter = parse_range-shorter mods tail (print_path (g' ∷ gs)) next read in
              rw (more, recurs)
                (rw (there, value_at, walk)
                  (rw refers (
                    rw read (
                      rw (constant_access-some o next, ◌>>=◌)
                        (recurs-walk gs g' fuel o w.1 (omega (arith, shorter)))))))
        ]
      ]

  -- A written path leads where its keys lead.
  pub retrieve-walk :
      (collection : ℕ) (g : Segment) (gs : List Segment)
      → AreWritable (g ∷ gs)
      → let path = print_path (g ∷ gs) in
        retrieve mods tail (constant_access mods tail) (length path) s collection path
        ≡ done (some (walk s collection g gs, s))
  unfolding retrieve parse_path
  retrieve-walk collection g gs w =
      let read = parse_range-print_segment mods tail g gs w.0 in
      let first : KeyAndRest = record { key = key_of g; rest_of_path = some (print_path gs) } in
      let shorter = parse_range-shorter mods tail (print_path (g ∷ gs)) first read in
      rw read (
        rw (constant_access-some collection first, ◌>>=◌)
          (recurs-walk gs g (length (print_path (g ∷ gs))) collection w.1 (omega (arith, shorter))))
