-- ===== src/Maps/Tests.antt =====
-- Runs of JMap's functions of api_3/tes_map.h on maps from numbers to numbers.
use jcontainers_ng.Common.{
  ℕ, ◌≡◌, refl, Bool, true, false, ◌||◌, not, none, some, List, [], ◌∷◌, arith, ltb, ◌==◌,
  if◌then◌else◌,
}
use jcontainers_ng.Maps.{same, u_get, get_item, set_item, u_erase, remove_key, add_pairs}
use jcontainers_ng.Maps.Lookup.{
  IsComparer, is_some, is_sorted, sorted_from, or_else, get_item-set_item, remove_key-u_get,
  add_pairs-u_get,
}
use jcontainers_ng.Item.{FormRef}
use jcontainers_ng.Paths.{form_lt, matches_lightweight}
use jcontainers_ng.Paths.Parse.{make_weak_form_id}
use jcontainers_ng.Paths.Assign.{form_lt-IsComparer, matches_lightweight-Agree}

below_irrefl : (a : ℕ) → ltb a a ≡ false
below_irrefl a = ground arith

below_asym : (a b : ℕ) → ltb a b ≡ true → ltb b a ≡ false
below_asym a b h = ground arith

below_split : (a b c : ℕ) → ltb a c ≡ true → (ltb a b || ltb b c) ≡ true
below_split a b c h = ground arith

below-IsComparer : IsComparer ℕ ltb
below-IsComparer = record { irrefl = below_irrefl; asym = below_asym; split = below_split }

-- `map_key_checker` of a form id.
abbrev not_zero : ℕ → Bool
not_zero n = not (n == 0)

abbrev three_pairs : List (ℕ × ℕ)
three_pairs = (2, 20) ∷ (4, 40) ∷ (6, 60) ∷ []

abbrev two_pairs : List (ℕ × ℕ)
two_pairs = (3, 30) ∷ (4, 41) ∷ []

three_pairs_sorted : is_sorted ltb three_pairs ≡ true
unfolding is_sorted sorted_from
three_pairs_sorted = refl

two_pairs_sorted : is_sorted ltb two_pairs ≡ true
unfolding is_sorted sorted_from
two_pairs_sorted = refl

get_item-set_item_example :
    get_item ltb not_zero (λ v. v) (set_item ltb not_zero 0 (some three_pairs) 3 7) 4 0
    ≡ (if same ltb 3 4 then 7 else get_item ltb not_zero (λ v. v) (some three_pairs) 4 0)
get_item-set_item_example =
    get_item-set_item ltb below-IsComparer not_zero (λ v. v) 0 three_pairs 3 4 7 0 refl refl

-- The forms 20 and 30, with a number each.
abbrev two_entries : List (FormRef × ℕ)
two_entries = (make_weak_form_id 20, 1) ∷ (make_weak_form_id 30, 2) ∷ []

two_entries_sorted : is_sorted form_lt two_entries ≡ true
unfolding is_sorted sorted_from form_lt
two_entries_sorted = refl

remove_key-u_get_example :
    (m : List (FormRef × ℕ)) × (remove_key form_lt matches_lightweight
        (some two_entries)
        (make_weak_form_id 20)
      ≡ (some m, is_some (u_get form_lt two_entries (make_weak_form_id 20))))
    × (u_get form_lt m (make_weak_form_id 30) ≡ (
        if same form_lt (make_weak_form_id 20) (make_weak_form_id 30)
        then none
        else u_get form_lt two_entries (make_weak_form_id 30)))
remove_key-u_get_example =
    remove_key-u_get form_lt form_lt-IsComparer matches_lightweight two_entries
      (make_weak_form_id 20) (make_weak_form_id 30) (matches_lightweight-Agree 20 (omega arith))
      two_entries_sorted

-- None erases a first entry whose form is deleted.
removed_none_run :
    remove_key {V = ℕ} form_lt matches_lightweight
      (some ((some (record { form_id = 20; is_deleted = true }), 1) ∷ []))
      none
    ≡ (some [], true)
unfolding remove_key u_erase form_lt matches_lightweight
removed_none_run = refl

add_pairs-u_get_example :
    (m : List (ℕ × ℕ)) × (add_pairs ltb 0 (some three_pairs) (some two_pairs) false ≡ some m)
    × (u_get ltb m 4 ≡ (
        if false
        then or_else (u_get ltb two_pairs 4) (u_get ltb three_pairs 4)
        else or_else (u_get ltb three_pairs 4) (u_get ltb two_pairs 4)))
add_pairs-u_get_example =
    add_pairs-u_get ltb below-IsComparer 0 three_pairs two_pairs false 4 two_pairs_sorted
