-- ===== src/Copying.antt =====
-- src/JContainers/src/collections/copying.h: shallow and deep copies of a container, on the `Store`
-- of the path access. A container's items are visited in their order; a copy is at an address that
-- was free.
pub mod Copied
pub mod Unique
pub mod Traverse
pub mod Deep
pub mod Tests
use jcontainers_ng.Common.{
  ℕ, zero, suc, ◌+◌, Bool, true, false, ◌==◌, if◌then◌else◌, Option, none, some, List, [], ◌∷◌,
  ◌++◌,
}
use jcontainers_ng.Item.{Item, object, object_of}
use jcontainers_ng.Paths.{Container, array, map, form_map, integer_map, Store, write}

-- `copying`; `copied` is the map from the originals to their copies.
pub record Copying (R : Type 0) : Type 0 where
  pub store : Store R
  pub copied : List (ℕ × ℕ)
  pub to_traverse : List ℕ

-- `_copyed.find`
unfoldable pub find : List (ℕ × ℕ) → ℕ → Option ℕ
find [] origin = none
find ((o, c) ∷ m) origin = let rest = find m origin in if o == origin then some c else rest

unfoldable pub values {ℓ κ} : {K : Type ℓ} {V : Type κ} → List (K × V) → List V
values [] = []
values ((k, v) ∷ m) = v ∷ values m

unfoldable pub with_values {ℓ κ} : {K : Type ℓ} {V : Type κ} → List (K × V) → List V → List (K × V)
with_values ((k, v) ∷ m) (w ∷ ws) = (k, w) ∷ with_values m ws
with_values _ _ = []

module _ {R : Type 0} where
  -- The items that `copy_child_objects` visits.
  unfoldable pub items_of : Container R → List (Item R)
  items_of (array xs) = xs
  items_of (map m) = values m
  items_of (form_map m) = values m
  items_of (integer_map m) = values m

  -- The container with other items in their places.
  unfoldable pub with_items : Container R → List (Item R) → Container R
  with_items (array xs) items = array items
  with_items (map m) items = map (with_values m items)
  with_items (form_map m) items = form_map (with_values m items)
  with_items (integer_map m) items = integer_map (with_values m items)

  unfoldable pub shallow_copy : Store R → ℕ → ℕ × Store R
  shallow_copy s parent =
      let a = s.next_address in (a, record (write s a (s.objects parent)) { next_address = a + 1 })

  unfoldable pub unique_copy : Copying R → ℕ → ℕ × Copying R
  unique_copy st origin = elim (find st.copied origin) [
    | some copy ↦ (copy, st)
    | none ↦
        let r = shallow_copy st.store origin in
        (
          r.0,
          record {
            store = r.1;
            copied = (origin, r.0) ∷ st.copied;
            to_traverse = st.to_traverse ++ (r.0 ∷ []);
          },
        )
  ]

  unfoldable pub copy_child : Copying R → Item R → Item R × Copying R
  copy_child st itm = elim (object_of itm) [
    | none ↦ (itm, st)
    | some origin_child ↦ let r = unique_copy st origin_child in (object (some r.0), r.1)
  ]

  unfoldable pub copy_children : Copying R → List (Item R) → List (Item R) × Copying R
  copy_children st [] = ([], st)
  copy_children st (itm ∷ items) =
      let r = copy_child st itm in let rest = copy_children r.1 items in (r.0 ∷ rest.0, rest.1)

  -- `copy_child_objects`
  unfoldable pub copy_child_objects : Copying R → ℕ → Copying R
  copy_child_objects st obj =
      let container = st.store.objects obj in
      let r = copy_children st (items_of container) in
      record r.1 { store = write r.1.store obj (with_items container r.0) }

  unfoldable pub traverse : Copying R → List ℕ → Copying R
  traverse st [] = st
  traverse st (obj ∷ tmp) = traverse (copy_child_objects st obj) tmp

  -- The loop of `_deep_copy`, on fuel.
  unfoldable pub rounds : ℕ → Copying R → Option (Copying R)
  rounds zero st = elim st.to_traverse [ [] ↦ some st | obj ∷ tmp ↦ none ]
  rounds (suc fuel) st = elim st.to_traverse [
    | [] ↦ some st
    | obj ∷ tmp ↦ rounds fuel (traverse (record st { to_traverse = [] }) (obj ∷ tmp))
  ]

  -- The root's copy, and the copying when the loop is over; each address in use has one round.
  unfoldable pub deep_copy : Store R → ℕ → Option (ℕ × Copying R)
  deep_copy s origin =
      let root = unique_copy (record { store = s; copied = []; to_traverse = [] }) origin in
      elim (rounds s.next_address root.1) [ none ↦ none | some st ↦ some (root.0, st) ]
