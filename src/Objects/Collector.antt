-- ===== src/Objects/Collector.antt =====
-- src/JContainers/src/object/garbage_collector.h: `u_collect`.
use jcontainers_ng.Common.{
  ℕ, zero, suc, ◌+◌, ◌||◌, Bool, false, Option, none, some, List, [], ◌∷◌, ◌++◌, ◌==◌,
  if◌then◌else◌, length,
}
use jcontainers_ng.Index.{Exec, done, ◌>>=◌}
use jcontainers_ng.Objects.{
  Context, load, is_user_retains, is_in_aqueue, no_owners, clear_items, delete_self, remove_address,
}

pub record Result : Type 0 where
  pub garbage_total : ℕ
  pub part_of_graphs : ℕ

-- `findRootObjects`: what a script retains, and what the queue owns.
unfoldable pub find_roots : Context → List ℕ → Exec (List ℕ)
find_roots c [] = done []
find_roots c (a ∷ as') = load c a >>= λ o. find_roots c as' >>= λ rest.
    done (if is_user_retains o || is_in_aqueue o then a ∷ rest else rest)

unfoldable pub is_member : ℕ → List ℕ → Bool
is_member a [] = false
is_member a (b ∷ bs) = a == b || is_member a bs

-- Erasing the roots from the set of all objects.
unfoldable pub erase_all : List ℕ → List ℕ → List ℕ
erase_all [] not_reachable = not_reachable
erase_all (a ∷ as') not_reachable = erase_all as' (remove_address a not_reachable)

-- The visitor: an object that was not reached yet is taken from the set and put in line.
unfoldable pub visit : ℕ → List ℕ × List ℕ → List ℕ × List ℕ
visit b (not_reachable, to_visit) =
    if is_member b not_reachable
    then (remove_address b not_reachable, to_visit ++ (b ∷ []))
    else (not_reachable, to_visit)

unfoldable pub visit_each : List ℕ → List ℕ × List ℕ → List ℕ × List ℕ
visit_each [] s = s
visit_each (b ∷ bs) s = visit_each bs (visit b s)

-- One pass over the objects of the last round.
unfoldable pub visit_round : Context → List ℕ → List ℕ × List ℕ → Exec (List ℕ × List ℕ)
visit_round c [] s = done s
visit_round c (a ∷ as') s = load c a >>= λ o. visit_round c as' (visit_each o.items s)

-- The loop `while (!objects_to_visit.empty())`; `none` is fuel that ran out.
unfoldable pub visit_all : Context → ℕ → List ℕ × List ℕ → Exec (Option (List ℕ))
visit_all c fuel (not_reachable, []) = done (some not_reachable)
visit_all c zero (not_reachable, a ∷ as') = done none
visit_all c (suc fuel) (not_reachable, a ∷ as') =
    visit_round c (a ∷ as') (not_reachable, []) >>= λ s. visit_all c fuel s

-- `findNonReachable`.
unfoldable pub find_non_reachable : Context → List ℕ → Exec (Option (List ℕ))
find_non_reachable c roots =
    visit_all c (suc (length c.all_objects)) (erase_all roots c.all_objects, roots)

-- `collectGarbage`: an object that something still refers to is emptied, another is deleted.
unfoldable pub sweep : Context → List ℕ → ℕ → Exec (ℕ × Context)
sweep c [] part_of_graphs = done (part_of_graphs, c)
sweep c (a ∷ as') part_of_graphs = load c a >>= λ o.
    if no_owners o
    then (delete_self c a o >>= λ c'. sweep c' as' part_of_graphs)
    else (clear_items c a >>= λ c'. sweep c' as' (part_of_graphs + 1))

unfoldable pub u_collect : Context → Exec (Option (Result × Context))
u_collect c = find_roots c c.all_objects >>= λ roots. find_non_reachable c roots >>= λ found.
    elim found [
      | none ↦ done none
      | some garbage ↦ sweep c garbage 0 >>= λ r.
          done (some (record { garbage_total = length garbage; part_of_graphs = r.0 }, r.1))
    ]
