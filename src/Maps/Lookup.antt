-- ===== src/Maps/Lookup.antt =====
-- What a lookup finds after a write, a removal and `addPairs`.
use jcontainers_ng.Common.{
  ◌≡◌, refl, ap, ◌∙◌, Bool, true, false, ◌&&◌, ◌||◌, Option, none, some, List, [], ◌∷◌, arith,
  if◌then◌else◌, Bool-cases, Option-cases, inl, inr,
}
use jcontainers_ng.Maps.{
  same, by_order, u_get, u_write, u_erase, u_insert, do_read_op_r, do_write_op, get_item, set_item,
  remove_key, add_pairs, insert_pairs, write_pairs,
}

-- The comparer of a map is a strict weak order.
pub record IsComparer (K : Type 0) (lt : K → K → Bool) : Type 0 where
  pub irrefl : (a : K) → lt a a ≡ false
  pub asym : (a b : K) → lt a b ≡ true → lt b a ≡ false
  pub split : (a b c : K) → lt a c ≡ true → (lt a b || lt b c) ≡ true

-- Of the keys that are not before this one, the lookup matches those that the comparer does not tell
-- apart from it.
abbrev pub Agree {ℓ} : {K : Type ℓ} → (K → K → Bool) → (K → K → Bool) → K → Type ℓ
Agree {K = K} lt matches key = (k : K) → lt k key ≡ false → matches k key ≡ by_order lt k key

abbrev pub is_some {ℓ} : {A : Type ℓ} → Option A → Bool
is_some none = false
is_some (some a) = true

-- The value that a write leaves.
abbrev pub written : {V : Type 0} → V → (V → V) → Option V → V
written blank op none = op blank
written blank op (some v) = op v

abbrev pub or_else : {V : Type 0} → Option V → Option V → Option V
or_else none w = w
or_else (some v) w = some v

-- The keys rise, from above `k`.
unfoldable pub sorted_from : {K : Type 0} {V : Type 0} → (K → K → Bool) → K → List (K × V) → Bool
sorted_from lt k [] = true
sorted_from lt k (p ∷ m) = lt k p.0 && sorted_from lt p.0 m

unfoldable pub is_sorted : {K : Type 0} {V : Type 0} → (K → K → Bool) → List (K × V) → Bool
is_sorted lt [] = true
is_sorted lt (p ∷ m) = sorted_from lt p.0 m

written-const : {V : Type 0} (blank v : V) (w : Option V) → written blank (λ x. v) w ≡ v
written-const blank v none = refl
written-const blank v (some w) = refl

or_else-none : {V : Type 0} (w : Option V) → w ≡ or_else w none
or_else-none none = refl
or_else-none (some w) = refl

module _ {K : Type 0} {V : Type 0} (lt : K → K → Bool) (o : IsComparer K lt) (blank : V) where
  pub u_get-u_write :
      (m : List (K × V)) (key q : K) (op : V → V)
      → u_get lt (u_write lt blank m key op) q
        ≡ (if same lt key q then some (written blank op (u_get lt m key)) else u_get lt m q)
  unfolding u_get u_write
  u_get-u_write [] key q op = ground arith
  u_get-u_write ((k, v) ∷ m) key q op = ground (
    arith,
    u_get-u_write m key q op,
    o.asym k key,
    o.asym k q,
    o.asym key q,
    o.asym key k,
    o.asym q k,
    o.asym q key,
    o.split k q key,
    o.split k key q,
    o.split key k q,
    o.split q k key,
    o.split key q k,
    o.split q key k,
  )

  u_get-same : (m : List (K × V)) (key q : K) → same lt key q ≡ true → u_get lt m key ≡ u_get lt m q
  unfolding u_get
  u_get-same [] key q h = refl
  u_get-same ((k, v) ∷ m) key q h = ground (
    arith,
    u_get-same m key q h,
    o.split k q key,
    o.split k key q,
    o.split q key k,
    o.split key q k,
  )

  -- A key that is not after the first of a sorted list's lower bound is not found.
  sorted_from-none :
      (m : List (K × V)) (k q : K)
      → sorted_from lt k m ≡ true
      → lt k q ≡ false
      → u_get lt m q ≡ none
  unfolding u_get sorted_from
  sorted_from-none [] k q s h = refl
  sorted_from-none ((k', v) ∷ m) k q s h = ground (arith, o.split k q k', o.asym q k')

  u_write-sorted_from :
      (m : List (K × V)) (k key : K) (op : V → V)
      → sorted_from lt k m ≡ true
      → lt k key ≡ true
      → sorted_from lt k (u_write lt blank m key op) ≡ true
  unfolding u_write sorted_from
  u_write-sorted_from [] k key op s h = ground arith
  u_write-sorted_from ((k', v) ∷ m) k key op s h = ground (arith, u_write-sorted_from m k' key op)

  -- A write keeps the pairs in the order of the comparer.
  pub u_write-is_sorted :
      (m : List (K × V)) (key : K) (op : V → V)
      → is_sorted lt m ≡ true
      → is_sorted lt (u_write lt blank m key op) ≡ true
  unfolding u_write is_sorted sorted_from
  u_write-is_sorted [] key op s = refl
  u_write-is_sorted ((k, v) ∷ m) key op s = ground (arith, u_write-sorted_from m k key op)

  sorted_from-is_sorted :
      (m : List (K × V)) (k : K) → sorted_from lt k m ≡ true → is_sorted lt m ≡ true
  unfolding is_sorted sorted_from
  sorted_from-is_sorted [] k s = refl
  sorted_from-is_sorted (p ∷ m) k s = ground arith

  pub u_get-u_erase :
      (matches : K → K → Bool) (m : List (K × V)) (key q : K)
      → Agree lt matches key
      → is_sorted lt m ≡ true
      → u_get lt (u_erase lt matches m key).0 q ≡ (if same lt key q then none else u_get lt m q)
  unfolding u_get u_erase is_sorted
  u_get-u_erase matches [] key q agree s = ground arith
  u_get-u_erase matches ((k, v) ∷ m) key q agree s = ground (
    arith,
    u_get-u_erase matches m key q agree (sorted_from-is_sorted m k s),
    sorted_from-none m k q s,
    agree k,
    o.asym k key,
    o.asym k q,
    o.asym key q,
    o.asym key k,
    o.asym q k,
    o.asym q key,
    o.split k q key,
    o.split k key q,
    o.split key k q,
    o.split q k key,
    o.split key q k,
    o.split q key k,
  )

  u_get-write_pairs :
      (m source : List (K × V)) (q : K)
      → is_sorted lt source ≡ true
      → u_get lt (write_pairs lt blank m source) q ≡ or_else (u_get lt source q) (u_get lt m q)
  unfolding write_pairs is_sorted u_get
  u_get-write_pairs m [] q s = refl
  u_get-write_pairs m ((k, v) ∷ source) q s =
      u_get-write_pairs (u_write lt blank m k (λ w. v)) source q (sorted_from-is_sorted source k s)
      ∙ ground (
        arith,
        u_get-u_write m k q (λ w. v),
        sorted_from-none source k q s,
        o.asym k q,
        o.asym q k,
        written-const blank v (u_get lt m k),
      )

module _ {K : Type 0} {V : Type 0} (lt : K → K → Bool) (o : IsComparer K lt) where
  u_get-u_insert :
      (m : List (K × V)) (key q : K) (v : V)
      → u_get lt (u_insert lt m key v) q
        ≡ or_else (u_get lt m q) (if same lt key q then some v else none)
  unfolding u_insert
  u_get-u_insert m key q v = elim (Option-cases (u_get lt m key)) [
    | inl new ↦
        rw (new, u_insert)
          (ground (arith, u_get-u_write lt o v m key q (λ w. w), u_get-same lt o v m key q, new))
    | inr (w, old) ↦ rw (old, u_insert) (ground (arith, u_get-same lt o v m key q, old))
  ]

  u_get-insert_pairs :
      (m source : List (K × V)) (q : K)
      → is_sorted lt source ≡ true
      → u_get lt (insert_pairs lt m source) q ≡ or_else (u_get lt m q) (u_get lt source q)
  unfolding insert_pairs is_sorted u_get
  u_get-insert_pairs m [] q s = or_else-none (u_get lt m q)
  u_get-insert_pairs m ((k, v) ∷ source) q s =
      u_get-insert_pairs (u_insert lt m k v) source q (sorted_from-is_sorted lt o v source k s)
      ∙ ground (
        arith,
        u_get-u_insert m k q v,
        sorted_from-none lt o v source k q s,
        o.asym k q,
        o.asym q k,
      )

  -- With a comparer that is a strict weak order: an item that was set under an accepted key is
  -- found under every accepted key that the comparer does not tell apart from it, and under the
  -- other keys `getItem` answers what it did before.
  pub get_item-set_item :
      (ok : K → Bool) {T : Type 0} (read : V → T) (blank : V) (m : List (K × V)) (key q : K)
      (val : V) (t : T)
      → ok key ≡ true
      → ok q ≡ true
      → get_item lt ok read (set_item lt ok blank (some m) key val) q t
        ≡ (if same lt key q then read val else get_item lt ok read (some m) q t)
  unfolding do_read_op_r do_write_op
  get_item-set_item ok read blank m key q val t h g =
      rw (h, g)
        (rw (u_get-u_write lt o blank m key q (λ itm. val)) (
          rw (written-const blank val (u_get lt m key)) (elim (Bool-cases (same lt key q)) [
            | inl hit ↦ rw hit refl
            | inr miss ↦ rw miss refl
          ])))

  -- Whether something was erased is whether the key was found.
  u_erase-u_get :
      (matches : K → K → Bool) (m : List (K × V)) (key : K)
      → Agree lt matches key
      → (u_erase lt matches m key).1 ≡ is_some (u_get lt m key)
  unfolding u_get u_erase
  u_erase-u_get matches [] key agree = refl
  u_erase-u_get matches ((k, v) ∷ m) key agree =
      ground (arith, u_erase-u_get matches m key agree, agree k)

  -- With a comparer that is a strict weak order and a map in its order, for a key at which the lookup
  -- matches what the comparer does not tell apart: `removeKey` answers whether the key was there,
  -- after it that key and those that the comparer does not tell apart from it are not found, and the
  -- others are found as before.
  pub remove_key-u_get :
      (matches : K → K → Bool) (m : List (K × V)) (key q : K)
      → Agree lt matches key
      → is_sorted lt m ≡ true
      → (m' : List (K × V)) × (remove_key lt matches (some m) key
          ≡ (some m', is_some (u_get lt m key)))
        × (u_get lt m' q ≡ (if same lt key q then none else u_get lt m q))
  unfolding remove_key u_get u_erase
  remove_key-u_get matches m key q agree s =
      let r = u_erase lt matches m key in
      (r.0, ap (λ b. (some r.0, b)) (u_erase-u_get matches m key agree), u_get-erased m s)
    where
      u_get-erased :
          (m : List (K × V))
          → is_sorted lt m ≡ true
          → u_get lt (u_erase lt matches m key).0 q ≡ (if same lt key q then none else u_get lt m q)
      u_get-erased [] s = ground arith
      u_get-erased (p ∷ m) s = u_get-u_erase lt o p.1 matches (p ∷ m) key q agree s

  -- With a comparer that is a strict weak order and a source in its order: `addPairs` leaves under
  -- each key what the source has, else what the map had, when duplicates are overridden, and what
  -- the map had, else what the source has, when they are not.
  pub add_pairs-u_get :
      (blank : V) (m source : List (K × V)) (override_duplicates : Bool) (q : K)
      → is_sorted lt source ≡ true
      → (m' : List (K × V)) × (add_pairs lt blank (some m) (some source) override_duplicates
          ≡ some m')
        × (u_get lt m' q ≡ (
            if override_duplicates
            then or_else (u_get lt source q) (u_get lt m q)
            else or_else (u_get lt m q) (u_get lt source q)))
  unfolding add_pairs
  add_pairs-u_get blank m source true q s =
      (write_pairs lt blank m source, refl, u_get-write_pairs lt o blank m source q s)
  add_pairs-u_get blank m source false q s =
      (insert_pairs lt m source, refl, u_get-insert_pairs m source q s)
