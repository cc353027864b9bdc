-- ===== src/Array/Ranges.antt =====
-- Operations on a whole range of an array.
use jcontainers_ng.Common.{
  ℕ, zero, suc, ◌+◌, ◌-◌, ◌≤◌, ◌<◌, ◌≡◌, refl, ap, sym, ◌∙◌, false, Option, some, List, [], ◌∷◌,
  ◌++◌, reverse, arith, length, get_elem?, set, take, drop, ℤ, negsuc, length-set,
  get_elem?-set_self, get_elem?-set_ne, leb, ◌==◌, if◌then◌else◌, le→leb, Bool-cases, inl, inr,
}
use mathlib.Core.List.{append_assoc, reverse-cons}
use jcontainers_ng.Index.{Exec, done, sint32_end, convert_read_indices, do_read_ops, do_write_op}
use jcontainers_ng.Index.Laws.{convert_write_index-neg}
use jcontainers_ng.Array.{
  erase_range, erase_between, swap_items, swap_between, read_at, add_from_array, add_from_form_list,
}
use jcontainers_ng.Array.Lists.{insert_all, insert_each}
use jcontainers_ng.Array.Elements.{Names, front, back, Names-lt, get_elem?-lt, length-insert_all}

-- An index in range passes the overload for two indices.
convert_two :
    (count : ℕ) (p q : ℤ) (i j : ℕ)
    → count < sint32_end
    → Names count p i
    → Names count q j
    → convert_read_indices count (p ∷ q ∷ []) ≡ some (i ∷ j ∷ [])
unfolding convert_read_indices
convert_two count p q i j w (front n h) (front m k) = ground arith
convert_two count p q i j w (front n h) (back m k) = ground arith
convert_two count p q i j w (back n h) (front m k) = ground arith
convert_two count p q i j w (back n h) (back m k) = ground arith

module _ {ℓ} {A : Type ℓ} where
  do_read_ops-Names {κ} :
      {B : Type κ} (xs : List A) (p q : ℤ) (i j : ℕ) (rest : B) (op : List A → List ℕ → Exec B)
      → length xs < sint32_end
      → Names (length xs) p i
      → Names (length xs) q j
      → do_read_ops (some xs) (p ∷ q ∷ []) rest op ≡ op xs (i ∷ j ∷ [])
  unfolding do_read_ops
  do_read_ops-Names xs p q i j rest op w n m =
      rw (convert_two (length xs) p q i j w n m, do_read_ops) refl

  -- Erasing the range of two indices in range of an array below 2 ^ 31 items removes the items from
  -- the first to the last, both included, and nothing when they are the other way round.
  pub erase_range-Names :
      (xs : List A) (p q : ℤ) (i j : ℕ)
      → length xs < sint32_end
      → Names (length xs) p i
      → Names (length xs) q j
      → erase_range (some xs) p q
        ≡ done (some (if leb i j then take i xs ++ drop (j + 1) xs else xs))
  unfolding erase_range
  erase_range-Names xs p q i j w n m =
      let e = do_read_ops-Names xs p q i j (some xs) erase_between w n m in
      let lt = Names-lt m in e ∙ ground arith

  swapped : List A → ℕ → ℕ → A → A → List A
  swapped xs i j a b = set (set xs i b) j a

  get_elem?-swapped :
      (xs : List A) (i j k : ℕ) (a b : A)
      → i < length xs
      → j < length xs
      → get_elem? (swapped xs i j a b) k
        ≡ (if k == j then some a else if k == i then some b else get_elem? xs k)
  unfolding swapped
  get_elem?-swapped xs i j k a b p q = elim (Bool-cases (k == j)) [
    | inl e ↦ rw e (
        let h : k ≡ j = ground arith in
        rw h (get_elem?-set_self (set xs i b) j a (rw (length-set xs i b) q)))
    | inr e ↦ rw e (
        get_elem?-set_ne (set xs i b) a (ground arith) ∙ elim (Bool-cases (k == i)) [
          | inl d ↦ rw d (let h : k ≡ i = ground arith in rw h (get_elem?-set_self xs i b p))
          | inr d ↦ rw d (get_elem?-set_ne xs b (ground arith))
        ])
  ]

  -- Swapping two indices in range exchanges their items and moves no other.
  pub swap_items-Names :
      (xs : List A) (p q : ℤ) (i j : ℕ)
      → length xs < sint32_end
      → Names (length xs) p i
      → Names (length xs) q j
      → (ys : List A) × (swap_items (some xs) p q ≡ done (some ys))
        × ((k : ℕ)
            → get_elem? ys k ≡ (
                if k == j
                then get_elem? xs i
                else if k == i
                then get_elem? xs j
                else get_elem? xs k))
  unfolding swap_items
  swap_items-Names xs p q i j w n m =
      let e = do_read_ops-Names xs p q i j (some xs) swap_between w n m in
      let (a, ga) = get_elem?-lt xs i (Names-lt n) in
      let (b, gb) = get_elem?-lt xs j (Names-lt m) in
      elim (Bool-cases (i == j)) [
        | inl same ↦ (xs, e ∙ rw same, λ k. ground arith)
        | inr apart ↦ (
          swapped xs i j a b,
          e ∙ rw apart (rw (ga, read_at) (rw (gb, read_at) (unfold swapped in refl))),
          λ k. get_elem?-swapped xs i j k a b (Names-lt n) (Names-lt m) ∙ rw (ga, gb),
        )
      ]

  insert_all-insert :
      (xs : List A) (i : ℕ) (y : A) (ys : List A)
      → i ≤ length xs
      → insert_all (insert_all xs i (y ∷ [])) i ys ≡ insert_all xs i (ys ++ (y ∷ []))
  insert_all-insert xs zero y ys h = sym (append_assoc ys (y ∷ []) xs)
  insert_all-insert [] (suc i) y ys h = absurd (omega arith)
  insert_all-insert (x ∷ xs) (suc i) y ys h = ap (◌∷◌ x) (insert_all-insert xs i y ys (omega arith))

  insert_all-nil : (xs : List A) (i : ℕ) → i ≤ length xs → insert_all xs i [] ≡ xs
  insert_all-nil xs zero h = refl
  insert_all-nil [] (suc i) h = absurd (omega arith)
  insert_all-nil (x ∷ xs) (suc i) h = ap (◌∷◌ x) (insert_all-nil xs i (omega arith))

  insert_each-reverse :
      (xs : List A) (i : ℕ) (ys : List A)
      → i ≤ length xs
      → insert_each xs i ys ≡ insert_all xs i (reverse ys)
  unfolding insert_each
  insert_each-reverse xs zero [] h = refl
  insert_each-reverse [] (suc i) [] h = absurd (omega arith)
  insert_each-reverse (x ∷ xs) (suc i) [] h = ap (◌∷◌ x) (sym (insert_all-nil xs i (omega arith)))
  insert_each-reverse xs i (y ∷ ys) h =
      insert_each-reverse (insert_all xs i (y ∷ [])) i ys
        (omega (arith, length-insert_all xs i (y ∷ [])))
      ∙ insert_all-insert xs i y (reverse ys) h
      ∙ ap (insert_all xs i) (sym (reverse-cons y ys))

  write_op-back :
      (xs : List A) (n : ℕ) (op : List A → ℕ → Exec (Option (List A)))
      → length xs < sint32_end
      → n ≤ length xs
      → do_write_op (some xs) (negsuc n) (some xs) op ≡ op xs (length xs - n)
  unfolding do_write_op
  write_op-back xs n op w h =
      rw (convert_write_index-neg (length xs) n w h, do_write_op) (ap (op xs) (omega arith))

  insert_all-split :
      (xs : List A) (i : ℕ) (ys : List A)
      → i ≤ length xs
      → insert_all xs i ys ≡ take i xs ++ (ys ++ drop i xs)
  insert_all-split xs zero ys h = refl
  insert_all-split [] (suc i) ys h = absurd (omega arith)
  insert_all-split (x ∷ xs) (suc i) ys h = ap (◌∷◌ x) (insert_all-split xs i ys (omega arith))

  -- Where a negative index that is in range of an array below 2 ^ 31 items inserts: another array's items go in as they stand,
  -- between the items before the place and those from there on; a form list goes in backwards.
  pub add_from-back :
      (xs ys : List A) (n : ℕ)
      → length xs < sint32_end
      → n ≤ length xs
      → let i = length xs - n in
        (add_from_array (some xs) (some ys) false (negsuc n)
          ≡ done (some (take i xs ++ (ys ++ drop i xs))))
        × (add_from_form_list (some xs) (some ys) (negsuc n)
            ≡ done (some (take i xs ++ (reverse ys ++ drop i xs))))
  unfolding add_from_array add_from_form_list
  add_from-back xs ys n w h =
      let i = length xs - n in
      let ok = le→leb i (length xs) (omega arith) in
      (
        write_op-back xs n _ w h
            ∙ rw ok (ap (λ (r : List A). done (some r)) (insert_all-split xs i ys (omega arith))),
        write_op-back xs n _ w h
            ∙ rw ok (
                ap (λ (r : List A). done (some r))
                  (insert_each-reverse xs i ys (omega arith)
                    ∙ insert_all-split xs i (reverse ys) (omega arith))),
      )
