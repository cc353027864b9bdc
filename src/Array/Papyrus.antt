-- ===== src/Array/Papyrus.antt =====
-- `writeToPapyrusArray`: items written into a script's array of fixed length.
use jcontainers_ng.Common.{
  ℕ, zero, suc, ◌+◌, ◌-◌, ◌≤◌, ◌<◌, ◌≡◌, ◌≢◌, refl, ◌∙◌, Bool, true, false, ◌&&◌, Option, none,
  some, List, arith, length, get_elem?, set, ℤ, pos, negsuc, pos_part, neg_part, ◌+ℤ◌, ltb_ℤ, leb_ℤ,
  leb, ltb, ◌==◌, if◌then◌else◌, length-set, get_elem?-set_self, get_elem?-set_ne, Bool-cases, inl,
  inr,
}
use mathlib.Core.Option
use jcontainers_ng.Index.{Exec, done, fault, ◌>>=◌, sint32_end, to_sint32, convert_read_index}
use jcontainers_ng.Index.Laws.{to_sint32-small, convert_read_index-neg, convert_read_index-pos}
use jcontainers_ng.Array.{u_get, u_convert_index}
use jcontainers_ng.Array.Elements.{Names, Names-lt, Names-read, get_elem?-lt}

module _ {A T : Type 0} (convert : A → T) where
  -- `targetArray.Set`, at an index that must be inside.
  abbrev set_target : List T → ℤ → T → Exec (List T)
  set_target target (pos i) v = if ltb i (length target) then done (set target i v) else fault
  set_target target (negsuc i) v = fault

  -- The loop, with the rounds left and the round's number.
  write_loop : List A → ℤ → ℤ → ℕ → ℕ → List T → Exec (List T)
  write_loop xs read first zero i target = done target
  write_loop xs read first (suc rounds) i target = elim (u_get xs (pos i +ℤ read)) [
    | none ↦ fault
    | some a ↦ elim (set_target target (pos i +ℤ first) (convert a)) [
      | fault ↦ fault
      | done target' ↦ write_loop xs read first rounds (suc i) target'
    ]
  ]

  -- The number of items from `first` to `last`, which is not before it.
  abbrev count_to_read : ℤ → ℤ → ℕ
  count_to_read first (pos n) = n + 1 - pos_part first + neg_part first
  count_to_read first (negsuc n) = neg_part first - n

  write_checked : List A → List T → ℤ → Option ℤ → Option ℤ → Exec (Bool × List T)
  write_checked xs target read none last = done (false, target)
  write_checked xs target read (some first) none = done (false, target)
  write_checked xs target read (some first) (some last) =
      if leb_ℤ first last
      then elim (convert_read_index (length xs) read) [
        | none ↦ done (false, target)
        | some r ↦
            let rounds = count_to_read first last in
            if ltb_ℤ (r +ℤ pos rounds) (to_sint32 (length xs) +ℤ pos 1)
            then (write_loop xs r first rounds 0 target >>= λ target'. done (true, target'))
            else done (false, target)
      ]
      else done (false, target)

  pub write_to_papyrus_array : Option (List A) → List T → ℤ → ℤ → ℤ → Exec (Bool × List T)
  write_to_papyrus_array none target write_at stop_write_at read = done (false, target)
  write_to_papyrus_array (some xs) target write_at stop_write_at read =
      write_checked xs target read (convert_read_index (length target) write_at)
        (convert_read_index (length target) stop_write_at)

  u_get-add :
      (xs : List A) (i r : ℕ) (a : A)
      → i + r < length xs
      → get_elem? xs (i + r) ≡ some a
      → u_get xs (pos i +ℤ pos r) ≡ some a
  unfolding u_get u_convert_index
  u_get-add xs i r a h e =
      let z : pos i +ℤ pos r ≡ pos (i + r) = ground arith in rw z (ground arith)

  write_loop-suc :
      (xs : List A) (r f n i : ℕ) (target : List T) (a : A)
      → i + r < length xs
      → i + f < length target
      → get_elem? xs (i + r) ≡ some a
      → write_loop xs (pos r) (pos f) (suc n) i target
        ≡ write_loop xs (pos r) (pos f) n (suc i) (set target (i + f) (convert a))
  unfolding write_loop
  write_loop-suc xs r f n i target a p q e =
      let z : pos i +ℤ pos f ≡ pos (i + f) = ground arith in
      rw (u_get-add xs i r a p e, write_loop) (rw (z, set_target) (ground arith))

  -- The loop writes the item of each round, and leaves the other slots.
  write_loop_lem :
      (xs : List A) (r f n i : ℕ) (target : List T)
      → r + i + n ≤ length xs
      → f + i + n ≤ length target
      → (t : List T) × (write_loop xs (pos r) (pos f) n i target ≡ done t)
        × (length t ≡ length target)
        × ((k : ℕ)
            → get_elem? t k ≡ (
                if leb (f + i) k && ltb k (f + i + n)
                then Option.map convert (get_elem? xs (r + (k - f)))
                else get_elem? target k))
  unfolding write_loop
  write_loop_lem xs r f zero i target p q = (target, refl, refl, λ k. ground arith)
  write_loop_lem xs r f (suc n) i target p q =
      let (a, ga) = get_elem?-lt xs (i + r) (omega arith) in
      let next = set target (i + f) (convert a) in
      let same = length-set target (i + f) (convert a) in
      let (t, e, l, g) = write_loop_lem xs r f n (suc i) next (omega arith) (omega (arith, same)) in
      (
        t,
        write_loop-suc xs r f n i target a (omega arith) (omega arith) ga ∙ e,
        l ∙ same,
        λ k. g k ∙ elim (Bool-cases (k == i + f)) [
          | inl here ↦
              let h : k ≡ i + f = ground arith in
              let v = get_elem?-set_self target (i + f) (convert a) (omega arith) in
              let z : r + (k - f) ≡ i + r = omega arith in
              rw z (rw ga (ground (arith, rw (← h) at v)))
          | inr apart ↦
              let d : i + f ≢ k = ground arith in
              ground (arith, get_elem?-set_ne target (convert a) d)
        ],
      )

  -- Below 2 ^ 31 items and slots, with both ends and the start in range, the first end not after the last, and enough items to
  -- read: the slots from the first to the last get the converted items from the start on; the
  -- others, and the length, stay.
  pub write_to_papyrus_array-Names :
      (xs : List A) (target : List T) (p q s : ℤ) (f l r : ℕ)
      → length xs < sint32_end
      → length target < sint32_end
      → Names (length target) p f
      → Names (length target) q l
      → Names (length xs) s r
      → f ≤ l
      → r + (l - f) < length xs
      → (t : List T) × (write_to_papyrus_array (some xs) target p q s ≡ done (true, t))
        × (length t ≡ length target)
        × ((k : ℕ)
            → get_elem? t k ≡ (
                if leb f k && leb k l
                then Option.map convert (get_elem? xs (r + (k - f)))
                else get_elem? target k))
  unfolding write_to_papyrus_array write_checked
  write_to_papyrus_array-Names xs target p q s f l r b c n m o h w =
      let (t, e, len, g) =
        write_loop_lem xs r f (l + 1 - f) 0 target (omega arith) (omega (arith, Names-lt m)) in
      (
        t,
        rw (Names-read c n, Names-read c m)
            (rw (Names-read b o, write_checked)
              (rw (to_sint32-small (length xs) b) (ground (arith, e)))),
        len,
        λ k. g k ∙ ground arith,
      )

  -- On a target of more than one and less than 2 ^ 31 slots, the pair [-1, 0] writes nothing and answers false.
  pub write_to_papyrus_array-reverse :
      (xs : List A) (target : List T) (read : ℤ)
      → 1 < length target
      → length target < sint32_end
      → write_to_papyrus_array (some xs) target (negsuc 0) (pos 0) read ≡ done (false, target)
  unfolding write_to_papyrus_array write_checked
  write_to_papyrus_array-reverse xs target read h c =
      rw
        (
          convert_read_index-neg (length target) 0 c (omega arith),
          (convert_read_index-pos (length target) 0 c).0 (omega arith),
        )
        (ground arith)
