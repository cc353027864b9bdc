-- ===== src/IdGenerator/Tests.antt =====
-- Runs of the identifier generator of object/id_generator.h on concrete ranges.
use jcontainers_ng.Common.{◌≡◌, refl, true, false, none, some, [], ◌∷◌, ◌==◌, ◌||◌, arith}
use jcontainers_ng.IdGenerator.{IdGenerator, new_id, reuse_id, is_free_id, u_clear}
use jcontainers_ng.IdGenerator.Covers.{covers, IsSpaced}
use jcontainers_ng.IdGenerator.Take.{Takes, new_id-Takes}
use jcontainers_ng.IdGenerator.Reuse.{reuse_id-covers}
use jcontainers_ng.IdGenerator.Iterator.{exhausted, reuse_id-exhausted}
use jcontainers_ng.IdGenerator.Trace.{State, Step, take, give, here, next, start, Inv, Run-Inv}

abbrev two_ranges : IdGenerator
two_ranges = record {
  empty_ranges = record { first = 4; last = 4 } ∷ record { first = 6; last = 9 } ∷ [];
  current_range = 0;
}

-- After 4 was taken.
abbrev one_range : IdGenerator
one_range = record { empty_ranges = record { first = 6; last = 9 } ∷ []; current_range = 0 }

two_ranges-IsSpaced : IsSpaced 0 two_ranges.empty_ranges
two_ranges-IsSpaced =
    (omega arith, omega arith, omega arith, (omega arith, omega arith, omega arith, tt))

new_id_run : new_id two_ranges ≡ some (4, one_range)
unfolding new_id
new_id_run = refl

covers_run : covers two_ranges.empty_ranges 5 ≡ false
unfolding covers
covers_run = refl

new_id-Takes_example : Takes two_ranges 4 one_range
new_id-Takes_example = new_id-Takes two_ranges one_range 4 two_ranges-IsSpaced new_id_run

-- 5 joins the two ranges.
reuse_id-covers_example :
    covers (reuse_id two_ranges 5).empty_ranges 8 ≡ (covers two_ranges.empty_ranges 8 || (8 == 5))
reuse_id-covers_example =
    reuse_id-covers two_ranges 5 8 two_ranges-IsSpaced (omega arith) covers_run

reuse_id-exhausted_example :
    (new_id (record { empty_ranges = record { first = 9; last = 9 } ∷ []; current_range = 0 })
      ≡ some (9, exhausted))
    × (is_free_id (reuse_id exhausted 5) 5 ≡ true)
    × (new_id (reuse_id exhausted 5) ≡ none)
reuse_id-exhausted_example = reuse_id-exhausted 9 5 (omega arith) (omega arith)

-- A client takes 1 and gives it back.
abbrev taken_state : State
taken_state = record {
  generator = record { empty_ranges = record { first = 2; last = 9 } ∷ []; current_range = 0 };
  handed_out = 1 ∷ [];
}

abbrev given_state : State
given_state = record { generator = reuse_id taken_state.generator 1; handed_out = [] }

take_step : Step (start 1 9) taken_state
unfolding new_id u_clear
take_step = take 1 refl refl (omega arith)

give_step : Step taken_state given_state
give_step = give [] [] 1 refl refl refl

Run-Inv_example : Inv 1 9 given_state
Run-Inv_example =
    Run-Inv 1 9 (omega arith) (omega arith) (omega arith) (next (next here take_step) give_step)
