-- ===== src/Paths/Rules.antt =====
-- How much of a path the rules of `path_resolving::resolve` take.
use jcontainers_ng.Common.{
  ℕ, zero, suc, ◌+◌, ◌≤◌, ◌<◌, ◌≡◌, refl, ap, Bool, true, false, Option, none, some, List, [], ◌∷◌,
  arith, length, take, drop, ◌==◌, Option-cases, inl, inr, ◌⊎◌, some-eq, if◌then◌else◌,
}
use jcontainers_ng.Index.{Exec, done, fault}
use jcontainers_ng.Item.{Reals, Item}
use jcontainers_ng.Paths.{Container, array, map, form_map, integer_map}
use jcontainers_ng.Paths.Parse.{find_if, is_key_end, is_bracket, after_bracket}
use jcontainers_ng.Paths.Segments.{find_if-length, left, after_bracket-shorter}
use jcontainers_ng.Paths.Walk.{Ends}
use jcontainers_ng.Paths.Resolve.{
  operator_name, map_name, index_text, strip_name, key_path, value_path, map_visit, to_visit,
}

pub take-drop : (n : ℕ) (s : List ℕ) → length (take n s) + length (drop n s) ≡ length s
take-drop zero [] = refl
take-drop zero (c ∷ s) = omega arith
take-drop (suc n) [] = refl
take-drop (suc n) (c ∷ s) = omega (arith, take-drop n s)

pub Ends-cases :
    {A : Type 0} (x : Exec (Option A)) → Ends x → (x ≡ fault) ⊎ ((a : A) × (x ≡ done (some a)))
Ends-cases fault h = inl refl
Ends-cases (done none) h = absurd h
Ends-cases (done (some a)) h = inr (a, refl)

-- What a rule takes from a path, when its text is not empty.
picked :
    (b : Bool) (f e : List ℕ × List ℕ)
    → (if b then (elim f.0 [ [] ↦ none | x ∷ xs ↦ some f ]) else none) ≡ some e
    → (length f.1 ≡ length e.1) × (0 < length f.0) × (f.1 ≡ e.1)
picked true ([], t) e h = cc
picked true (x ∷ xs, t) e h =
    let q = some-eq h in (ap (λ z. length z.1) q, omega arith, ap (λ z. z.1) q)
picked false f e h = cc

module _ (r : Reals) where
  open r use {Real}

  pub operator_name-shorter :
      (path : List ℕ) (e : List ℕ × List ℕ)
      → operator_name r path ≡ some e
      → length e.1 + 1 < length path
  unfolding operator_name
  operator_name-shorter [] e h = cc
  operator_name-shorter (c ∷ []) e h = cc
  operator_name-shorter (c ∷ d ∷ s) e h =
      let f = find_if (λ b. b == b'.') (d ∷ s) in
      let (q, n, _) = picked (c == b'@') f e h in
      omega (arith, q, n, find_if-length (λ b. b == b'.') (d ∷ s))

  pub map_name-shorter :
      (path : List ℕ) (e : List ℕ × List ℕ)
      → map_name r path ≡ some e
      → length e.1 + 1 < length path
  unfolding map_name
  map_name-shorter [] e h = cc
  map_name-shorter (c ∷ []) e h = cc
  map_name-shorter (c ∷ d ∷ s) e h =
      let (q, n, _) = picked (c == b'.') (find_if is_key_end (d ∷ s)) e h in
      omega (arith, q, n, find_if-length is_key_end (d ∷ s))

  pub index_text-shorter :
      (path : List ℕ) (e : List ℕ × List ℕ)
      → index_text r path ≡ some e
      → (left (after_bracket e.1) < length path)
  unfolding index_text
  index_text-shorter [] e h = cc
  index_text-shorter (c ∷ []) e h = cc
  index_text-shorter (c ∷ d ∷ []) e h = cc
  index_text-shorter (c ∷ d ∷ x ∷ s) e h =
      let (q, n, _) = picked (c == b'[') (find_if is_bracket (d ∷ x ∷ s)) e h in
      omega (arith, q, n, find_if-length is_bracket (d ∷ x ∷ s), after_bracket-shorter e.1)

  strip_name-shorter :
      (name path rest : List ℕ) → strip_name r name path ≡ some rest → length rest ≤ length path
  unfolding strip_name
  strip_name-shorter [] path rest h = ground arith
  strip_name-shorter (p ∷ ps) [] rest h = cc
  strip_name-shorter (p ∷ ps) (c ∷ path) rest h = ground (arith, strip_name-shorter ps path rest)

  map_visit-shorter :
      {K : Type 0} (key_item : K → Item Real) (m : List (K × Item Real)) (path : List ℕ)
      → length (map_visit r key_item m path).1 ≤ length path
  unfolding map_visit
  map_visit-shorter key_item m path = elim (Option-cases (strip_name r (key_path r) path)) [
    | inr (rest, e) ↦ rw (e, map_visit) (strip_name-shorter (key_path r) path rest e)
    | inl other ↦ elim (Option-cases (strip_name r (value_path r) path)) [
      | inr (rest, e) ↦ rw (other, map_visit) (rw e (strip_name-shorter (value_path r) path rest e))
      | inl neither ↦ rw (other, map_visit) (rw neither (omega arith))
    ]
  ]

  pub to_visit-shorter :
      (c : Container Real) (path : List ℕ) → length (to_visit r c path).1 ≤ length path
  unfolding to_visit
  to_visit-shorter (array xs) path = omega arith
  to_visit-shorter (map m) path = map_visit-shorter _ m path
  to_visit-shorter (form_map m) path = map_visit-shorter _ m path
  to_visit-shorter (integer_map m) path = map_visit-shorter _ m path
