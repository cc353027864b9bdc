-- ===== src/Maps/Nth.antt =====
-- `getNthKey`: the walk from the nearer end.
use jcontainers_ng.Common.{
  ℕ, zero, suc, ◌-◌, ◌/◌, ◌<◌, ◌≡◌, refl, ap, ◌∙◌, some, List, [], ◌∷◌, ◌++◌, reverse, length,
  length-append, arith, pos, negsuc, Bool-cases, inl, inr, ltb,
}
use mathlib.Core.List.{reverse-cons}
use jcontainers_ng.Index.{done, sint32_end}
use jcontainers_ng.Index.Laws.{convert_read_index-pos, convert_read_index-neg}
use jcontainers_ng.Maps.{key_after, get_nth_key}

module _ {K : Type 0} {V : Type 0} where
  length-reverse : (m : List (K × V)) → length (reverse m) ≡ length m
  length-reverse [] = refl
  length-reverse (p ∷ m) =
      rw (reverse-cons p m) (omega (arith, length-append (reverse m) (p ∷ []), length-reverse m))

  key_after-front :
      (m m' : List (K × V)) (n : ℕ) → n < length m → key_after (m ++ m') n ≡ key_after m n
  unfolding key_after
  key_after-front [] m' n h = absurd (omega arith)
  key_after-front (p ∷ m) m' zero h = refl
  key_after-front (p ∷ m) m' (suc n) h = key_after-front m m' n (omega arith)

  key_after-last :
      (m : List (K × V)) (p : K × V) (n : ℕ) → n ≡ length m → key_after (m ++ (p ∷ [])) n ≡ done p.0
  unfolding key_after
  key_after-last [] p n h = rw h refl
  key_after-last (q ∷ m) p zero h = absurd (omega arith)
  key_after-last (q ∷ m) p (suc n) h = key_after-last m p n (omega arith)

  -- So many steps from the end are the other steps from the front.
  key_after-reverse :
      (m : List (K × V)) (i : ℕ)
      → i < length m
      → key_after (reverse m) (length m - 1 - i) ≡ key_after m i
  unfolding key_after
  key_after-reverse [] i h = absurd (omega arith)
  key_after-reverse (p ∷ m) zero h =
      rw (reverse-cons p m)
        (key_after-last (reverse m) p (suc (length m) - 1 - 0) (omega (arith, length-reverse m)))
  key_after-reverse (p ∷ m) (suc i) h = rw (reverse-cons p m) (
      key_after-front (reverse m) (p ∷ []) (suc (length m) - 1 - suc i)
        (omega (arith, length-reverse m))
      ∙ ap (key_after (reverse m)) (omega arith)
      ∙ key_after-reverse m i (omega arith))

  key_after-some : (m : List (K × V)) (i : ℕ) → i < length m → (k : K) × (key_after m i ≡ done k)
  unfolding key_after
  key_after-some [] i h = absurd (omega arith)
  key_after-some (p ∷ m) zero h = (p.0, refl)
  key_after-some (p ∷ m) (suc i) h = key_after-some m i (omega arith)

  -- Of a map below 2 ^ 31 pairs: whichever end is nearer, `getNthKey` answers the key so many steps from the front, for an
  -- index from the front and for one that counts from the end.
  pub get_nth_key-after :
      (m : List (K × V)) (i : ℕ)
      → i < length m
      → length m < sint32_end
      → (k : K) × (key_after m i ≡ done k)
        × (get_nth_key (some m) (pos i) ≡ done (some k))
        × (get_nth_key (some m) (negsuc (length m - 1 - i)) ≡ done (some k))
  unfolding get_nth_key
  get_nth_key-after m i h w =
      let (k, e) = key_after-some m i h in
      let back = key_after-reverse m i h ∙ e in
      let at_pos = (convert_read_index-pos (length m) i w).0 h in
      let at_neg = convert_read_index-neg (length m) (length m - 1 - i) w (omega arith) in
      let same_place : length m - suc (length m - 1 - i) ≡ i = omega arith in
      (
        k,
        e,
        rw (at_pos, get_nth_key)
            (elim (Bool-cases (ltb i (length m / 2))) [
              | inl near ↦ rw near (rw e refl)
              | inr far ↦ rw far (rw back refl)
            ]),
        rw (at_neg, get_nth_key)
            (rw same_place (elim (Bool-cases (ltb i (length m / 2))) [
              | inl near ↦ rw near (rw e refl)
              | inr far ↦ rw far (rw back refl)
            ])),
      )
