-- ===== src/Array/Elements.antt =====
-- Reading, replacing and inserting one item.
use jcontainers_ng.Common.{
  ℕ, zero, suc, ◌+◌, ◌-◌, ◌≤◌, ◌<◌, ◌≡◌, refl, none, some, List, [], ◌∷◌, arith, length, get_elem?,
  set, ℤ, pos, negsuc, length-set, get_elem?-set_self, get_elem?-set_ne, get_elem?-ne-none, inl,
  inr, Option-cases, Bool-cases, if◌then◌else◌, ◌==◌, ap, sym, ◌∙◌, get_elem?-ge, length-append,
}
use mathlib.Core.Path.{subst}
use jcontainers_ng.Index.{
  Exec, done, fault, to_uint, word_mod, sint32_end, convert_read_index, do_read_op, do_write_op,
}
use jcontainers_ng.Index.Laws.{
  convert_read_index-pos, convert_read_index-neg, convert_read_index-under, convert_write_index-neg,
}
use jcontainers_ng.Array.{item_at_index, replace_item_at_index, add_item_at, erase_index, read_at}
use jcontainers_ng.Array.Lists.{insert_all, erase_at}

-- A script's index names the offset `i` of an array of `count` items.
pub data Names (count : ℕ) : ℤ → ℕ → Type 0 where
  front : (n : ℕ) → n < count → Names count (pos n) n
  back : (n : ℕ) → n < count → Names count (negsuc n) (count - suc n)

pub Names-lt : {count : ℕ} {py : ℤ} {i : ℕ} → Names count py i → i < count
Names-lt (front n h) = h
Names-lt (back n h) = omega arith

Names-eq : {count : ℕ} {py : ℤ} {i j : ℕ} → Names count py i → i ≡ j → Names count py j
Names-eq {count} {py} n e = subst (Names count py) e n

pub Names-read :
    {count : ℕ} {py : ℤ} {i : ℕ}
    → count < sint32_end
    → Names count py i
    → convert_read_index count py ≡ some (pos i)
Names-read {count = count} w (front n h) = (convert_read_index-pos count n w).0 h
Names-read {count = count} w (back n h) = convert_read_index-neg count n w h

module _ {ℓ} {A : Type ℓ} where
  pub get_elem?-lt : (xs : List A) (i : ℕ) → i < length xs → (a : A) × (get_elem? xs i ≡ some a)
  get_elem?-lt xs i h = elim (Option-cases (get_elem? xs i)) [
    | inl e ↦ absurd (get_elem?-ne-none xs i h e)
    | inr found ↦ found
  ]

  -- An index in range is read at the offset that it names.
  pub do_read_op-Names {κ} :
      {B : Type κ} (xs : List A) (py : ℤ) (i : ℕ) (rest : B) (op : List A → ℕ → Exec B)
      → length xs < sint32_end
      → Names (length xs) py i
      → do_read_op (some xs) py rest op ≡ op xs i
  unfolding do_read_op
  do_read_op-Names xs py i rest op w n =
      let lt = Names-lt n in rw (Names-read w n, do_read_op) (ap (op xs) (omega arith))

  replace-Names :
      (xs : List A) (v : A) (py : ℤ) (i : ℕ)
      → length xs < sint32_end
      → Names (length xs) py i
      → replace_item_at_index (some xs) py v ≡ done (some (set xs i v))
  unfolding replace_item_at_index
  replace-Names xs v py i w n =
      let lt = Names-lt n in do_read_op-Names xs py i _ _ w n ∙ ground arith

  item_at-Names {κ} :
      {T : Type κ} (read_as : A → T) (xs : List A) (py : ℤ) (i : ℕ) (a : A) (t : T)
      → length xs < sint32_end
      → Names (length xs) py i
      → get_elem? xs i ≡ some a
      → item_at_index read_as (some xs) py t ≡ done (read_as a)
  unfolding item_at_index
  item_at-Names read_as xs py i a t w n e = do_read_op-Names xs py i _ _ w n ∙ rw (e, read_at)

  -- For two indices in range of an array below 2 ^ 31 items: replacing the item at one keeps the
  -- size, the other reads the new value when it names the same item, and what it did before when
  -- it does not.
  pub item_at-replace {κ} :
      {T : Type κ} (read_as : A → T) (xs : List A) (v : A) (py py' : ℤ) (i j : ℕ) (t : T)
      → length xs < sint32_end
      → Names (length xs) py i
      → Names (length xs) py' j
      → (ys : List A) × (replace_item_at_index (some xs) py v ≡ done (some ys))
        × (length ys ≡ length xs)
        × (item_at_index read_as (some ys) py' t
            ≡ (if i == j then done (read_as v) else item_at_index read_as (some xs) py' t))
  item_at-replace read_as xs v py py' i j t w n m =
      let same = length-set xs i v in
      let m' = subst (λ k. Names k py' j) (sym same) m in
      let w' = subst (λ k. k < sint32_end) (sym same) w in
      let (a, e) = get_elem?-lt xs j (Names-lt m) in
      (
        set xs i v,
        replace-Names xs v py i w n,
        same,
        elim (Bool-cases (i == j)) [
          | inl hit ↦
              let p : i ≡ j = ground arith in
              rw hit (
                item_at-Names read_as (set xs i v) py' j v t w' m'
                  (rw (← p) (get_elem?-set_self xs i v (Names-lt n))))
          | inr miss ↦ rw miss (
              item_at-Names read_as (set xs i v) py' j a t w' m'
                (get_elem?-set_ne xs v (ground arith) ∙ e)
              ∙ sym (item_at-Names read_as xs py' j a t w m e))
        ],
      )

  -- Further from the end than the array is long, an index of a non-empty array below 2 ^ 31 items
  -- reaches outside it, when the two together are below 2 ^ 32.
  pub item_at-under {κ} :
      {T : Type κ} (read_as : A → T) (xs : List A) (n : ℕ) (t : T)
      → 0 < length xs
      → length xs ≤ n
      → length xs < sint32_end
      → length xs + n < word_mod
      → item_at_index read_as (some xs) (negsuc n) t ≡ fault
  unfolding item_at_index do_read_op
  item_at-under read_as xs n t p h b w =
      rw (convert_read_index-under (length xs) n b p h, do_read_op)
        (rw (get_elem?-ge xs (to_uint (negsuc (n - length xs))) (omega arith), read_at))

  pub length-insert_all :
      (xs : List A) (i : ℕ) (ys : List A) → length (insert_all xs i ys) ≡ length xs + length ys
  length-insert_all xs zero ys = omega (arith, length-append ys xs)
  length-insert_all [] (suc i) ys = omega arith
  length-insert_all (x ∷ xs) (suc i) ys = omega (arith, length-insert_all xs i ys)

  erase_at-insert_one :
      (xs : List A) (i : ℕ) (v : A) → i ≤ length xs → erase_at (insert_all xs i (v ∷ [])) i ≡ xs
  erase_at-insert_one xs zero v h = refl
  erase_at-insert_one [] (suc i) v h = absurd (omega arith)
  erase_at-insert_one (x ∷ xs) (suc i) v h = ap (◌∷◌ x) (erase_at-insert_one xs i v (omega arith))

  get_elem?-insert_one :
      (xs : List A) (i : ℕ) (v : A)
      → i ≤ length xs
      → get_elem? (insert_all xs i (v ∷ [])) i ≡ some v
  get_elem?-insert_one xs zero v h = refl
  get_elem?-insert_one [] (suc i) v h = absurd (omega arith)
  get_elem?-insert_one (x ∷ xs) (suc i) v h = get_elem?-insert_one xs i v (omega arith)

  do_write_op-back {κ} :
      {B : Type κ} (xs : List A) (n : ℕ) (rest : B) (op : List A → ℕ → Exec B)
      → length xs < sint32_end
      → n ≤ length xs
      → do_write_op (some xs) (negsuc n) rest op ≡ op xs (length xs - n)
  unfolding do_write_op
  do_write_op-back xs n rest op w h =
      rw (convert_write_index-neg (length xs) n w h, do_write_op) (ap (op xs) (omega arith))

  -- Inserting with a negative index that reaches no further than the array, which stays below 2 ^ 31
  -- items: the item is found under that same index, and erasing it there gives the array back.
  pub erase-add_item :
      (xs : List A) (v : A) (n : ℕ)
      → length xs + 1 < sint32_end
      → n ≤ length xs
      → (ys : List A) × (add_item_at (some xs) v (negsuc n) ≡ done (some ys))
        × (length ys ≡ length xs + 1)
        × (item_at_index (λ a. some a) (some ys) (negsuc n) none ≡ done (some v))
        × (erase_index (some ys) (negsuc n) ≡ done (some xs))
  unfolding add_item_at erase_index
  erase-add_item xs v n w h =
      let i = length xs - n in
      let ys = insert_all xs i (v ∷ []) in
      let e : length ys ≡ length xs + 1 = omega (arith, length-insert_all xs i (v ∷ [])) in
      let m : Names (length ys) (negsuc n) i = Names-eq (back n (omega arith)) (omega arith) in
      let w' : length ys < sint32_end = omega arith in
      (
        ys,
        do_write_op-back xs n _ _ (omega arith) h ∙ ground arith,
        e,
        item_at-Names (λ a. some a) ys (negsuc n) i v none w' m
            (get_elem?-insert_one xs i v (omega arith)),
        do_read_op-Names ys (negsuc n) i _ _ w' m
            ∙ ground (arith, erase_at-insert_one xs i v (omega arith)),
      )
