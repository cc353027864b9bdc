-- ===== src/Json/Trees.antt =====
-- Documents whose nodes form trees, and lists of what waits in `json_deserializer`.
use jcontainers_ng.Common.{
  ℕ, suc, ◌≤◌, ◌<◌, ◌≡◌, refl, ◌==◌, Option, none, some, List, [], ◌∷◌, ◌++◌, arith, Bool-cases,
  inl, inr,
}
use jcontainers_ng.Maps.{u_write}
use jcontainers_ng.Paths.{Key}
use jcontainers_ng.Json.{
  Json, json_node, JsonNode, json_array, json_object, Document, Jansson, meta_info,
  meta_info_legacy, set_node,
}
use jcontainers_ng.Json.Reading.{text_lt, drop_meta}

-- A node is at `n` or above, and in use.
abbrev pub From : {D : Type 0} → ℕ → ℕ → Json D → Type 0
From n limit (json_node m) = (n ≤ m) × (m < limit)
From n limit _ = Unit

abbrev pub AllPairs {κ} : {A : Type 0} → (A → Type κ) → List (List ℕ × A) → Type κ
AllPairs P [] = Unit
AllPairs P (p ∷ ps) = P p.1 × AllPairs P ps

abbrev pub AllValues {κ} : {A : Type 0} → (A → Type κ) → List A → Type κ
AllValues P [] = Unit
AllValues P (a ∷ as') = P a × AllValues P as'

abbrev pub NodeFrom : {D : Type 0} → ℕ → ℕ → JsonNode D → Type 0
NodeFrom n limit (json_array vs) = AllValues (From n limit) vs
NodeFrom n limit (json_object ms) = AllPairs (From n limit) ms

-- A node's children have greater numbers, as those of a tree can be numbered.
abbrev pub IsTree : {D : Type 0} → Document D → Type 0
IsTree doc = (n : ℕ) → NodeFrom (suc n) doc.next_node (doc.nodes n)

-- `json_object_del` adds no pair.
abbrev pub DeletesOnly : {D : Type 0} → Jansson D → Type 1
DeletesOnly {D} lib =
    (P : Json D → Type 0) (ms : List (List ℕ × Json D)) (key : List ℕ)
    → AllPairs P ms
    → AllPairs P (lib.object_del ms key)

-- Containers at `base` or above.
abbrev pub AllNew : {A : Type 0} → ℕ → List (ℕ × A) → Type 0
AllNew base [] = Unit
AllNew base (p ∷ ps) = (base ≤ p.0) × AllNew base ps

abbrev pub AllTargets : ℕ → List (List ℕ × List (ℕ × Key)) → Type 0
AllTargets base [] = Unit
AllTargets base ((path, targets) ∷ m) = AllNew base targets × AllTargets base m

-- Nodes from `n` on that are in use.
abbrev pub AllFrom : ℕ → ℕ → List (ℕ × ℕ) → Type 0
AllFrom n limit [] = Unit
AllFrom n limit (p ∷ ps) = ((n ≤ p.1) × (p.1 < limit)) × AllFrom n limit ps

pub AllNew-append :
    {A : Type 0} (base : ℕ) (ps : List (ℕ × A)) (p : ℕ × A)
    → AllNew base ps
    → base ≤ p.0
    → AllNew base (ps ++ (p ∷ []))
AllNew-append base [] p h b = (b, tt)
AllNew-append base (q ∷ ps) p h b = (h.0, AllNew-append base ps p h.1 b)

pub AllFrom-append :
    (n limit : ℕ) (ps : List (ℕ × ℕ)) (p : ℕ × ℕ)
    → AllFrom n limit ps
    → (n ≤ p.1) × (p.1 < limit)
    → AllFrom n limit (ps ++ (p ∷ []))
AllFrom-append n limit [] p h b = (b, tt)
AllFrom-append n limit (q ∷ ps) p h b = (h.0, AllFrom-append n limit ps p h.1 b)

pub AllTargets-u_write :
    (base : ℕ) (m : List (List ℕ × List (ℕ × Key))) (path : List ℕ) (p : ℕ × Key)
    → AllTargets base m
    → base ≤ p.0
    → AllTargets base (u_write text_lt [] m path (λ targets. targets ++ (p ∷ [])))
unfolding u_write
AllTargets-u_write base [] path p h b = ((b, tt), tt)
AllTargets-u_write base ((q, targets) ∷ m) path p h b = elim (Bool-cases (text_lt q path)) [
  | inl less ↦ rw (less, u_write) (h.0, AllTargets-u_write base m path p h.1 b)
  | inr not_less ↦ elim (Bool-cases (text_lt path q)) [
    | inl more ↦ rw (not_less, u_write) (rw more ((b, tt), h))
    | inr same ↦ rw (not_less, u_write) (rw same (AllNew-append base targets p h.0 b, h.1))
  ]
]

module _ {D : Type 0} (lib : Jansson D) (only : DeletesOnly lib) where
  set_node-IsTree :
      (doc : Document D) (m : ℕ) (node : JsonNode D)
      → IsTree doc
      → NodeFrom (suc m) doc.next_node node
      → IsTree (set_node doc m node)
  set_node-IsTree doc m node t h x = elim (Bool-cases (m == x)) [
    | inl same ↦ let e : x ≡ m = ground arith in rw same (rw e h)
    | inr other ↦ rw other (t x)
  ]

  pub drop_meta-IsTree :
      (doc : Document D) (m : ℕ) (ms : List (List ℕ × Json D)) (meta : Option (Json D))
      → IsTree doc
      → AllPairs (From (suc m) doc.next_node) ms
      → IsTree (drop_meta lib doc m ms meta)
        × ((drop_meta lib doc m ms meta).next_node ≡ doc.next_node)
  unfolding drop_meta
  drop_meta-IsTree doc m ms none t h = (t, refl)
  drop_meta-IsTree doc m ms (some meta) t h =
      let P = From (suc m) doc.next_node in
      (set_node-IsTree doc m _ t (only P _ meta_info_legacy (only P ms meta_info h)), refl)
