-- ===== src/Array.antt =====
-- src/JContainers/src/api_3/tes_array.h, the script interface JArray, and the index functions of
-- `array` in collections/collections_types.h. An array that may be null is an option of its items;
-- `A` is the type of items and `eq` their `operator ==`.
pub mod Lists
pub mod Elements
pub mod Search
pub mod Ranges
pub mod Papyrus
pub mod Sets
pub mod Tests
use jcontainers_ng.Common.{
  ℕ, zero, suc, ◌+◌, ◌-◌, ◌≡◌, ◌&&◌, Bool, true, false, not, Option, none, some, List, [], ◌∷◌,
  ◌++◌, reverse, ltb, leb, ◌==◌, if◌then◌else◌, length, get_elem?, set, take, drop, replicate, ℤ,
  pos, negsuc, ◌+ℤ◌, ltb_ℤ, leb_ℤ,
}
use jcontainers_ng.Index.{
  Exec, done, fault, checked, ◌>>=◌, to_uint, convert_read_index, do_read_op, do_read_ops,
  do_write_op,
}
use Lists.{insert_all, insert_each, erase_at, find_from, find_last, count_if, remove_if}

module _ {ℓ} {A : Type ℓ} where
  -- `array::u_convertIndex` checks both ends. The cast of the size keeps what is below 2 ^ 31.
  unfoldable pub u_convert_index : List A → ℤ → Option ℕ
  u_convert_index xs (pos n) = if ltb n (length xs) then some n else none
  u_convert_index xs (negsuc n) = if ltb n (length xs) then some (length xs - suc n) else none

  unfoldable pub u_get : List A → ℤ → Option A
  u_get xs index = elim (u_convert_index xs index) [ none ↦ none | some i ↦ get_elem? xs i ]

  unfoldable pub u_erase : List A → ℤ → List A × Bool
  u_erase xs index = elim (u_convert_index xs index) [
    | none ↦ (xs, false)
    | some i ↦ (erase_at xs i, true)
  ]

  -- The Boolean says whether a pointer to the item is returned.
  unfoldable pub u_set : List A → ℤ → A → List A × Bool
  u_set xs index a = elim (u_convert_index xs index) [
    | none ↦ (xs, false)
    | some i ↦ (set xs i a, true)
  ]

  abbrev pub validate_read_index_range : Option (List A) → ℕ → ℕ → Bool
  validate_read_index_range none start stop = false
  validate_read_index_range (some xs) start stop = ltb start stop && leb stop (length xs)

  -- `_array[idx]` as a read.
  abbrev pub read_at : List A → ℕ → Exec A
  read_at xs i = elim (get_elem? xs i) [ none ↦ fault | some a ↦ done a ]

  -- A negative size gives null.
  unfoldable pub object_with_size : A → ℤ → Option (List A)
  object_with_size blank (pos n) = some (replicate n blank)
  object_with_size blank (negsuc n) = none

  unfoldable pub sub_array : Option (List A) → ℤ → ℤ → Exec (Option (List A))
  sub_array none start stop = done none
  sub_array (some xs) start stop =
      if validate_read_index_range (some xs) (to_uint start) (to_uint stop)
      then done (some (take (to_uint stop - to_uint start) (drop (to_uint start) xs)))
      else done none

  -- `insertItems` at `whereTo`; the two references are the same object when `same` holds.
  unfoldable pub add_from_array :
      Option (List A) → Option (List A) → Bool → ℤ → Exec (Option (List A))
  add_from_array obj none same insert_at_index = done obj
  add_from_array obj (some ys) true insert_at_index = done obj
  add_from_array obj (some ys) false insert_at_index =
      do_write_op obj insert_at_index obj
        (λ xs i. checked (leb i (length xs)) (some (insert_all xs i ys)))

  -- Each form of the list is inserted at the same offset.
  unfoldable pub add_from_form_list : Option (List A) → Option (List A) → ℤ → Exec (Option (List A))
  add_from_form_list obj none insert_at_index = done obj
  add_from_form_list obj (some forms) insert_at_index =
      do_write_op obj insert_at_index obj
        (λ xs i. checked (leb i (length xs)) (some (insert_each xs i forms)))

  unfoldable pub item_at_index {κ} : {T : Type κ} → (A → T) → Option (List A) → ℤ → T → Exec T
  item_at_index read_as obj index t =
      do_read_op obj index t (λ xs i. read_at xs i >>= λ a. done (read_as a))

  unfoldable pub all_items {κ} : {T : Type κ} → (A → T) → Option (List A) → List T
  all_items read_as none = []
  all_items read_as (some []) = []
  all_items read_as (some (x ∷ xs)) = read_as x ∷ all_items read_as (some xs)

  unfoldable pub replace_item_at_index : Option (List A) → ℤ → A → Exec (Option (List A))
  replace_item_at_index obj index val =
      do_read_op obj index obj (λ xs i. checked (ltb i (length xs)) (some (set xs i val)))

  unfoldable pub add_item_at : Option (List A) → A → ℤ → Exec (Option (List A))
  add_item_at obj val add_to_index =
      do_write_op obj add_to_index obj
        (λ xs i. checked (leb i (length xs)) (some (insert_all xs i (val ∷ []))))

  unfoldable pub erase_index : Option (List A) → ℤ → Exec (Option (List A))
  erase_index obj index =
      do_read_op obj index obj (λ xs i. checked (ltb i (length xs)) (some (erase_at xs i)))

  -- Both ends belong to the erased range.
  abbrev pub erase_between : List A → List ℕ → Exec (Option (List A))
  erase_between xs (i ∷ j ∷ []) =
      if leb i j
      then checked (ltb j (length xs)) (some (take i xs ++ drop (j + 1) xs))
      else done (some xs)
  erase_between xs other = fault

  unfoldable pub erase_range : Option (List A) → ℤ → ℤ → Exec (Option (List A))
  erase_range obj first last = do_read_ops obj (first ∷ last ∷ []) obj erase_between

  abbrev pub exchange_at : List A → ℕ → ℕ → Exec (List A)
  exchange_at xs i j = read_at xs i >>= λ a. read_at xs j >>= λ b. done (set (set xs i b) j a)

  abbrev pub swap_between : List A → List ℕ → Exec (Option (List A))
  swap_between xs (i ∷ j ∷ []) =
      if i == j then done (some xs) else (exchange_at xs i j >>= λ ys. done (some ys))
  swap_between xs other = fault

  unfoldable pub swap_items : Option (List A) → ℤ → ℤ → Exec (Option (List A))
  swap_items obj idx idx2 = do_read_ops obj (idx ∷ idx2 ∷ []) obj swap_between

  -- `no_item` is 0.
  unfoldable pub value_type : (A → ℕ) → Option (List A) → ℤ → Exec ℕ
  value_type type obj index = do_read_op obj index 0 (λ xs i. read_at xs i >>= λ a. done (type a))

  abbrev pub reverse_items : Option (List A) → Option (List A)
  reverse_items none = none
  reverse_items (some xs) = some (reverse xs)

  module _ (eq : A → A → Bool) where
    -- The forward search starts at `idx`; the backward one is over reverse iterators, whose
    -- distance from `rend` is one more than the offset of the item.
    abbrev pub search_from : A → ℤ → List A → ℕ → Exec ℤ
    search_from value (pos start) xs i = elim (find_from eq value i xs) [
      | none ↦ done (negsuc 0)
      | some k ↦ done (pos k)
    ]
    search_from value (negsuc back) xs i = elim (find_last eq value (length xs - back) xs) [
      | none ↦ done (negsuc 0)
      | some k ↦ done (pos (k + 1))
    ]

    unfoldable pub find_val : Option (List A) → A → ℤ → Exec ℤ
    find_val obj value start =
        do_read_op obj start (negsuc 0)
          (λ xs i. if leb i (length xs) then search_from value start xs i else fault)

    unfoldable pub count_item : Option (List A) → A → ℕ
    count_item none value = 0
    count_item (some xs) value = count_if (λ x. eq x value) xs

    -- `remove` and `erase`: the items that stay, and the number of the others.
    unfoldable pub erase_item : Option (List A) → A → Option (List A) × ℕ
    erase_item none value = (none, 0)
    erase_item (some xs) value =
        let kept = remove_if (λ x. eq x value) xs in (some kept, length xs - length kept)
