-- ===== src/Array/Tests.antt =====
-- Runs of JArray's functions of api_3/tes_array.h on an array of numbers.
use jcontainers_ng.Common.{
  ℕ, suc, ◌+◌, ◌-◌, ◌≡◌, refl, Bool, true, false, ◌||◌, none, some, List, [], ◌∷◌, ◌++◌, reverse,
  arith, length, get_elem?, take, drop, ℤ, pos, negsuc, leb, ltb, ◌==◌, ◌&&◌, not, if◌then◌else◌,
}
use mathlib.Core.Option
use jcontainers_ng.Index.{done, fault, convert_read_indices}
use jcontainers_ng.Array.{
  item_at_index, replace_item_at_index, add_item_at, erase_index, find_val, erase_range,
  add_from_array, add_from_form_list,
}
use jcontainers_ng.Array.Lists.{count_if}
use jcontainers_ng.Array.Elements.{
  Names, front, back, item_at-replace, item_at-under, erase-add_item,
}
use jcontainers_ng.Array.Search.{Forward, Backward, find_val-Forward, find_val-Backward}
use jcontainers_ng.Array.Ranges.{erase_range-Names, add_from-back}
use jcontainers_ng.Array.Sets.{Order}
use jcontainers_ng.Array.Papyrus.{
  write_to_papyrus_array, write_to_papyrus_array-Names, write_to_papyrus_array-reverse,
}

abbrev four : List ℕ
four = 7 ∷ 8 ∷ 7 ∷ 9 ∷ []

abbrev same_number : ℕ → ℕ → Bool
same_number a b = a == b

second : Names 4 (pos 1) 1
second = front 1 (omega arith)

last_one : Names 4 (negsuc 0) 3
last_one = back 0 (omega arith)

item_at-replace_example :
    (ys : List ℕ) × (replace_item_at_index (some four) (pos 1) 5 ≡ done (some ys))
    × (length ys ≡ 4)
    × (item_at_index (λ a. a) (some ys) (negsuc 0) 0
        ≡ item_at_index (λ a. a) (some four) (negsuc 0) 0)
item_at-replace_example =
    item_at-replace (λ a. a) four 5 (pos 1) (negsuc 0) 1 3 0 (omega arith) second last_one

item_at-under_example : item_at_index (λ a. a) (some four) (negsuc 4) 0 ≡ fault
item_at-under_example =
    item_at-under (λ a. a) four 4 0 (omega arith) (omega arith) (omega arith) (omega arith)

erase-add_item_example :
    (ys : List ℕ) × (add_item_at (some four) 5 (negsuc 1) ≡ done (some ys))
    × (length ys ≡ 4 + 1)
    × (item_at_index (λ a. some a) (some ys) (negsuc 1) none ≡ done (some 5))
    × (erase_index (some ys) (negsuc 1) ≡ done (some four))
erase-add_item_example = erase-add_item four 5 1 (omega arith) (omega arith)

find_val-Forward_example :
    (z : ℤ) × (find_val same_number (some four) 7 (pos 1) ≡ done z) × Forward same_number 7 four 1 z
find_val-Forward_example = find_val-Forward same_number 7 four 1 (omega arith) (omega arith)

find_val-Backward_example :
    (z : ℤ) × (find_val same_number (some four) 7 (negsuc 0) ≡ done z)
    × Backward same_number 7 four (4 - 0) z
find_val-Backward_example = find_val-Backward same_number 7 four 0 (omega arith) (omega arith)

not_eight : (x : ℕ) → same_number x 7 ≡ true → same_number x 8 ≡ false
not_eight x h = ground arith

erase_range-Names_example :
    erase_range (some four) (pos 1) (negsuc 0)
    ≡ done (some (if leb 1 3 then take 1 four ++ drop (3 + 1) four else four))
erase_range-Names_example =
    erase_range-Names four (pos 1) (negsuc 0) 1 3 (omega arith) second last_one

add_from-back_example :
    (add_from_array (some four) (some (1 ∷ 2 ∷ [])) false (negsuc 1)
      ≡ done (some (take 3 four ++ ((1 ∷ 2 ∷ []) ++ drop 3 four))))
    × (add_from_form_list (some four) (some (1 ∷ 2 ∷ [])) (negsuc 1)
        ≡ done (some (take 3 four ++ (reverse (1 ∷ 2 ∷ []) ++ drop 3 four))))
add_from-back_example = add_from-back four (1 ∷ 2 ∷ []) 1 (omega arith) (omega arith)

below_irrefl : (a : ℕ) → ltb a a ≡ false
below_irrefl a = ground arith

below_split : (a b c : ℕ) → ltb a c ≡ true → (ltb a b || ltb b c) ≡ true
below_split a b c h = ground arith

below_asym : (a b : ℕ) → ltb a b ≡ true → ltb b a ≡ false
below_asym a b h = ground arith

same_incomparable : (a b : ℕ) → same_number a b ≡ (not (ltb a b) && not (ltb b a))
same_incomparable a b = ground arith

abbrev numbers : Order ℕ
numbers = record {
  lt = ltb;
  eq = same_number;
  lt_irrefl = below_irrefl;
  lt_split = below_split;
  lt_asym = below_asym;
  eq_incomparable = same_incomparable;
}

abbrev sorted_four : List ℕ
sorted_four = 7 ∷ 7 ∷ 8 ∷ 9 ∷ []

-- A `sort` that is right on `four`.
abbrev sort_four : List ℕ → List ℕ
sort_four xs = sorted_four

sort_four-count : (p : ℕ → Bool) → count_if p (sort_four four) ≡ count_if p four
unfolding count_if
sort_four-count p = ground arith

abbrev target : List ℕ
target = 0 ∷ 0 ∷ 0 ∷ 0 ∷ []

first_one : Names 4 (pos 0) 0
first_one = front 0 (omega arith)

write_to_papyrus_array-Names_example :
    (t : List ℕ) × (write_to_papyrus_array suc (some four) target (pos 0) (pos 1) (pos 1)
      ≡ done (true, t))
    × (length t ≡ 4)
    × ((k : ℕ)
        → get_elem? t k ≡ (
            if leb 0 k && leb k 1
            then Option.map suc (get_elem? four (1 + (k - 0)))
            else get_elem? target k))
write_to_papyrus_array-Names_example =
    write_to_papyrus_array-Names suc four target (pos 0) (pos 1) (pos 1) 0 1 1 (omega arith)
      (omega arith) first_one second second (omega arith) (omega arith)

write_to_papyrus_array-reverse_example :
    write_to_papyrus_array suc (some four) target (negsuc 0) (pos 0) (pos 0) ≡ done (false, target)
write_to_papyrus_array-reverse_example =
    write_to_papyrus_array-reverse suc four target (pos 0) (omega arith) (omega arith)

indices_run : convert_read_indices 4 (pos 1 ∷ negsuc 0 ∷ []) ≡ some (1 ∷ 3 ∷ [])
unfolding convert_read_indices
indices_run = refl
