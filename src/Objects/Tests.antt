-- ===== src/Objects/Tests.antt =====
-- A context of objects as in object/: a root, the object that it refers to, and two that are garbage.
use jcontainers_ng.Common.{ℕ, ◌≡◌, refl, true, Option, none, some, List, [], ◌∷◌, arith, leb, count}
use jcontainers_ng.Index.{done}
use jcontainers_ng.Objects.{Object, Context, update, tick}
use jcontainers_ng.Objects.Collector.{Result, u_collect}
use jcontainers_ng.Objects.Invariant.{held}
use jcontainers_ng.Objects.Release.{Owned}
use jcontainers_ng.Objects.Tick.{tick-Owned}
use jcontainers_ng.Objects.Reach.{Reach, root, item, u_collect-Owned, u_collect-Reach}
use jcontainers_ng.Objects.Time.{time_subtract, is_due, ticks, life_in_ticks, due_after}
use jcontainers_ng.IdGenerator.{u_clear}
use jcontainers_ng.Objects.Lapse.{run_ticks, run_ticks-gone}

-- An object without an identifier.
abbrev plain : ℕ → ℕ → ℕ → List ℕ → Object
plain refs tes queued items = record {
  id = 0;
  ref_count = refs;
  tes_ref_count = tes;
  stack_ref_count = 0;
  aqueue_ref_count = queued;
  aqueue_push_time = 0;
  initialized = true;
  items = items;
}

-- 1 is retained by a script and refers to 2; 3 refers to itself; 4 is owned by the queue alone.
abbrev heap_four : ℕ → Option Object
heap_four =
    update
      (update
        (update (update (λ b. none) 1 (some (plain 0 1 0 (2 ∷ [])))) 2 (some (plain 1 0 0 []))) 3
        (some (plain 1 0 0 (3 ∷ []))))
      4 (some (plain 0 0 1 []))

abbrev four_objects : Context
four_objects = record {
  heap = heap_four;
  all_objects = 1 ∷ 2 ∷ 3 ∷ 4 ∷ [];
  handles = λ n. none;
  id_gen = u_clear 1 9;
  queue = 4 ∷ [];
  tick_counter = 6;
}

four_objects-Owned : Owned four_objects [] []
unfolding held count
four_objects-Owned = record {
  live = λ b. ground arith;
  refs = λ b. ground arith;
  queued = λ b. ground arith;
}

two-Reach : Reach four_objects 2
unfolding count
two-Reach = item {a = 1} {o = plain 0 1 0 (2 ∷ [])} (root refl refl) refl (omega arith)

u_collect-Owned_example :
    (r : Result) × (c' : Context) × (u_collect four_objects ≡ done (some (r, c'))) × Owned c' [] []
u_collect-Owned_example = u_collect-Owned four_objects four_objects-Owned

u_collect-Reach_example :
    (r : Result) × (c' : Context) × (u_collect four_objects ≡ done (some (r, c')))
    × (count 2 c'.all_objects ≡ count 2 four_objects.all_objects)
u_collect-Reach_example = u_collect-Reach four_objects 2 four_objects-Owned two-Reach

tick-Owned_example : (c' : Context) × (tick four_objects ≡ done c') × Owned c' [] []
tick-Owned_example = tick-Owned four_objects four_objects-Owned

due_after_example :
    (is_due (ticks 3 4294967294) 4294967294 ≡ leb 4 3)
    × (is_due 4294967294 (time_subtract 4294967294 life_in_ticks) ≡ true)
due_after_example = due_after 3 4294967294 (omega arith) (omega arith)

-- The clock stands where 4 was pushed.
abbrev just_pushed : Context
just_pushed = record four_objects { tick_counter = 0 }

run_ticks-gone_example :
    (c4 : Context) × (c5 : Context) × (run_ticks 4 just_pushed ≡ done c4)
    × (c4.heap 4 ≡ some (plain 0 0 1 []))
    × (run_ticks 5 just_pushed ≡ done c5)
    × (c5.heap 4 ≡ none)
run_ticks-gone_example =
    run_ticks-gone just_pushed 4 (plain 0 0 1 []) four_objects-Owned refl refl refl refl
      (omega arith) (omega arith)
