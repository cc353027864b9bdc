-- ===== src/Json/Serials.antt =====
-- `json_serializer`: the invariant of its loop. An object that has a node climbs to the root, and the
-- objects that have none grow fewer.
use jcontainers_ng.Common.{
  ℕ, zero, suc, ◌+◌, ◌≤◌, ◌<◌, ◌≡◌, refl, ap, sym, ◌∙◌, true, false, ◌==◌, if◌then◌else◌, Option,
  none, some, List, [], ◌∷◌, ◌++◌, arith, length, length-append, Bool-cases, Option-cases, inl, inr,
}
use jcontainers_ng.Item.{Item, object_of}
use jcontainers_ng.Paths.{Key, Store}
use jcontainers_ng.Json.{Document}
use jcontainers_ng.Json.Keys.{KeyInfo, contains, emplace}
use jcontainers_ng.Json.Trails.{
  child_at, Known, AllClimb, Known-emplace, Known-emplaced, AllClimb-emplace,
}
use jcontainers_ng.Json.Writing.{Serializer, first_placeholder, fill_key_info}

-- How many of the first addresses are not listed.
pub unseen : ℕ → List ℕ → ℕ
unseen zero l = 0
unseen (suc k) l = (if contains l k then 0 else 1) + unseen k l

pub unseen-le : (k : ℕ) (l : List ℕ) → unseen k l ≤ k
unfolding unseen
unseen-le zero l = omega arith
unseen-le (suc k) l = ground (arith, unseen-le k l)

unseen-above : (k a : ℕ) (l : List ℕ) → k ≤ a → unseen k (a ∷ l) ≡ unseen k l
unfolding unseen contains
unseen-above zero a l h = refl
unseen-above (suc k) a l h = ground (arith, unseen-above k a l)

pub unseen-new :
    (k a : ℕ) (l : List ℕ) → contains l a ≡ false → a < k → unseen k (a ∷ l) + 1 ≡ unseen k l
unfolding unseen contains
unseen-new zero a l c h = absurd (omega arith)
unseen-new (suc k) a l c h = elim (Bool-cases (a == k)) [
  | inl same ↦
      let e : a ≡ k = ground arith in
      let c' : contains l k ≡ false = ap (contains l) (sym e) ∙ c in
      ground (arith, unseen-above k a l)
  | inr other ↦ ground (arith, unseen-new k a l)
]

module _ {R : Type 0} (s : Store R) (limit : ℕ) where
  -- The object of an item is in use, and stands under the item's key.
  abbrev pub Held : ℕ → Key → Option ℕ → Type 0
  Held cnt key none = Unit
  Held cnt key (some obj) = (obj < limit) × (child_at s cnt key ≡ some obj)

module _ {R : Type 0} (s : Store R) (root limit : ℕ) where
  -- Each waits with an address in use, and climbs to the root.
  abbrev pub AllPlaced : KeyInfo → List (ℕ × ℕ) → Type 0
  AllPlaced info [] = Unit
  AllPlaced info (p ∷ ps) = ((p.0 < limit) × Known s root info p.0) × AllPlaced info ps

  AllPlaced-append :
      (info : KeyInfo) (ps : List (ℕ × ℕ)) (p : ℕ × ℕ)
      → AllPlaced info ps
      → (p.0 < limit) × Known s root info p.0
      → AllPlaced info (ps ++ (p ∷ []))
  AllPlaced-append info [] p h b = (b, tt)
  AllPlaced-append info (q ∷ ps) p h b = (h.0, AllPlaced-append info ps p h.1 b)

  -- What a value needs: its object is in use and known.
  abbrev pub Ready : KeyInfo → Option ℕ → Type 0
  Ready info none = Unit
  Ready info (some obj) = (obj < limit) × Known s root info obj

module _ {R D : Type 0} (s : Store R) (root limit : ℕ) where
  pub record Inv (k : ℕ) (st : Serializer D) : Type 0 where
    pub counted : length st.to_fill + unseen limit st.serialized_objects ≡ k
    pub placed : AllPlaced s root limit st.key_info st.to_fill
    pub climbs : AllClimb s root st.key_info
    pub rooted : contains st.serialized_objects root ≡ true
    pub known : (a : ℕ) → contains st.serialized_objects a ≡ true → Known s root st.key_info a

  -- What was known stays known.
  abbrev pub More : Serializer D → Serializer D → Type 0
  More st st' = (a : ℕ) → Known s root st.key_info a → Known s root st'.key_info a

  pub AllPlaced-More :
      (st st' : Serializer D) (ps : List (ℕ × ℕ))
      → More st st'
      → AllPlaced s root limit st.key_info ps
      → AllPlaced s root limit st'.key_info ps
  AllPlaced-More st st' [] m h = tt
  AllPlaced-More st st' (p ∷ ps) m h = ((h.0.0, m p.0 h.0.1), AllPlaced-More st st' ps m h.1)

  -- The nodes play no part.
  pub set_doc-Inv :
      (k : ℕ) (st : Serializer D) (doc : Document D) → Inv k st → Inv k (record st { doc = doc })
  set_doc-Inv k st doc i = record {
    counted = i.counted;
    placed = i.placed;
    climbs = i.climbs;
    rooted = i.rooted;
    known = i.known;
  }

  emplace-Inv :
      (k : ℕ) (st : Serializer D) (obj cnt : ℕ) (key : Key)
      → Inv k st
      → Known s root st.key_info cnt
      → child_at s cnt key ≡ some obj
      → Inv k (record st { key_info = emplace st.key_info obj (cnt, key) })
  emplace-Inv k st obj cnt key i o held =
      let st' = record st { key_info = emplace st.key_info obj (cnt, key) } in
      let more : More st st' = λ a. Known-emplace s root st.key_info obj (cnt, key) a in
      record {
        counted = i.counted;
        placed = AllPlaced-More st st' st.to_fill more i.placed;
        climbs = AllClimb-emplace s root st.key_info obj cnt key i.climbs o held;
        rooted = i.rooted;
        known = λ a h. more a (i.known a h);
      }

  pub fill_key_info-Inv :
      (k : ℕ) (st : Serializer D) (itm : Item R) (cnt : ℕ) (key : Key)
      → Inv k st
      → Known s root st.key_info cnt
      → Held s limit cnt key (object_of itm)
      → let st' = fill_key_info st itm cnt key in
        Inv k st' × More st st' × Ready s root limit st'.key_info (object_of itm)
  unfolding fill_key_info
  fill_key_info-Inv k st itm cnt key i o h = elim (Option-cases (object_of itm)) [
    | inl plain ↦ rw (plain, fill_key_info) (i, λ a x. x, tt)
    | inr (obj, refers) ↦
        let held : Held s limit cnt key (some obj) = rw refers at h in
        rw (refers, fill_key_info)
          (
            emplace-Inv k st obj cnt key i o held.1,
            λ a. Known-emplace s root st.key_info obj (cnt, key) a,
            (held.0, Known-emplaced s root st.key_info obj (cnt, key)),
          )
  ]

  pub first_placeholder-Inv :
      (k : ℕ) (st : Serializer D) (obj : ℕ)
      → Inv k st
      → contains st.serialized_objects obj ≡ false
      → (obj < limit) × Known s root st.key_info obj
      → Inv k (first_placeholder s st obj).1
  unfolding first_placeholder contains
  first_placeholder-Inv k st obj i c b = record {
    counted = omega (
      arith,
      i.counted,
      unseen-new limit obj st.serialized_objects c b.0,
      length-append st.to_fill ((obj, st.doc.next_node) ∷ []),
    );
    placed = AllPlaced-append s root limit st.key_info st.to_fill _ i.placed b;
    climbs = i.climbs;
    rooted = ground (arith, i.rooted);
    known = λ a h. elim (Bool-cases (obj == a)) [
      | inl same ↦ let e : a ≡ obj = ground arith in rw e b.1
      | inr other ↦ i.known a (rw other at h)
    ];
  }
