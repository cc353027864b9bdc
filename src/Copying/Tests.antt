-- ===== src/Copying/Tests.antt =====
-- Runs of the functions of collections/copying.h on two containers that refer to each other.
use jcontainers_ng.Common.{
  ℕ, zero, suc, ◌≡◌, refl, Option, none, some, List, [], ◌∷◌, ◌==◌, if◌then◌else◌, arith, pos,
}
use jcontainers_ng.Item.{integer, object}
use jcontainers_ng.Paths.{Store, Container, map, array}
use jcontainers_ng.Copying.{Copying, find, items_of, deep_copy}
use jcontainers_ng.Copying.Traverse.{Closed}
use jcontainers_ng.Copying.Deep.{CopiedAt, deep_copy-CopiedAt}

-- The array at 0 has the map at 1 twice and 5; the map has the array under "a".
abbrev cycle : Store ℕ
cycle = record {
  objects = λ a.
      if a == 0
      then array (object (some 1) ∷ object (some 1) ∷ integer (pos 5) ∷ [])
      else map ((b'a' ∷ [], object (some 0)) ∷ []);
  next_address = 2;
}

cycle-Closed : Closed cycle
unfolding items_of jcontainers_ng.Copying.values
cycle-Closed zero h = (omega arith, (omega arith, (tt, tt)))
cycle-Closed (suc zero) h = (omega arith, tt)
cycle-Closed (suc (suc x)) h = absurd (omega arith)

deep_copy-CopiedAt_example :
    (copy : ℕ) × (st : Copying ℕ) × (deep_copy cycle 0 ≡ some (copy, st))
    × (find st.copied 0 ≡ some copy)
    × ((o : ℕ) → CopiedAt cycle st o)
    × (st.store.objects 1 ≡ cycle.objects 1)
deep_copy-CopiedAt_example = deep_copy-CopiedAt cycle 0 1 cycle-Closed (omega arith) (omega arith)

-- The copies, at 2 and 3, refer to each other.
abbrev second : Option (ℕ × Copying ℕ) → List (Container ℕ)
second none = []
second (some r) = r.1.store.objects 2 ∷ r.1.store.objects 3 ∷ []

copies_run :
    second (deep_copy cycle 0)
    ≡ array (object (some 3) ∷ object (some 3) ∷ integer (pos 5) ∷ [])
      ∷ map ((b'a' ∷ [], object (some 2)) ∷ [])
      ∷ []
unfolding deep_copy jcontainers_ng.Copying.rounds jcontainers_ng.Copying.traverse
    jcontainers_ng.Copying.copy_child_objects jcontainers_ng.Copying.copy_children
    jcontainers_ng.Copying.copy_child jcontainers_ng.Copying.unique_copy
    jcontainers_ng.Copying.shallow_copy find items_of jcontainers_ng.Copying.with_items
    jcontainers_ng.Copying.values jcontainers_ng.Copying.with_values
copies_run = refl
