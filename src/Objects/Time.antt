-- ===== src/Objects/Time.antt =====
-- The clock of autorelease_queue.h: `time_add` and `time_subtract` on 32-bit words.
use jcontainers_ng.Common.{
  ℕ, zero, suc, ◌+◌, ◌-◌, ◌%◌, true, ◌<◌, ◌≡◌, Bool, ltb, leb, if◌then◌else◌, arith,
}

-- The largest `time_point`.
abbrev pub time_max : ℕ
time_max = 4294967295

-- `obj_lifetime / tick_duration`.
abbrev pub life_in_ticks : ℕ
life_in_ticks = 5

unfoldable pub time_subtract : ℕ → ℕ → ℕ
time_subtract minuend subtrahend =
    if leb subtrahend minuend then minuend - subtrahend else time_max - (subtrahend - minuend)

unfoldable pub time_add : ℕ → ℕ → ℕ
time_add a b = if ltb b (time_max - a) then a + b else b - (time_max - a)

-- The test of `tick`: whether an object that was pushed at a time is to go now.
unfoldable pub is_due : ℕ → ℕ → Bool
is_due now pushed = leb life_in_ticks ((time_subtract now pushed + 1) % 4294967296)

-- For times below `time_max`: the sum stays below it, and each of the two operations undoes the
-- other.
pub time_add-subtract :
    (a b : ℕ)
    → a < time_max
    → b < time_max
    → (time_add a b < time_max)
      × (time_subtract (time_add a b) a ≡ b)
      × (time_add b (time_subtract a b) ≡ a)
unfolding time_add time_subtract
time_add-subtract a b p q = (ground arith, ground arith, ground arith)

-- The clock after a number of ticks.
unfoldable pub ticks : ℕ → ℕ → ℕ
ticks zero now = now
ticks (suc n) now = time_add (ticks n now) 1

ticks-lt : (n now : ℕ) → now < time_max → ticks n now < time_max
unfolding ticks time_add
ticks-lt zero now h = h
ticks-lt (suc n) now h = ground (arith, ticks-lt n now h)

-- The age that `tick` sees: the ticks since the push.
ticks-age : (n now : ℕ) → now < time_max → n < time_max → time_subtract (ticks n now) now ≡ n
unfolding ticks time_add time_subtract
ticks-age zero now h k = ground arith
ticks-age (suc n) now h k = ground (arith, ticks-age n now h (omega arith), ticks-lt n now h)

-- For a clock below `time_max`, and fewer ticks than it takes to come round: an object that is
-- pushed as public is due from the fifth tick on and not earlier, and one that is not public is
-- due at once.
pub due_after :
    (n now : ℕ)
    → now < time_max
    → n + life_in_ticks < time_max
    → (is_due (ticks n now) now ≡ leb 4 n) × (is_due now (time_subtract now life_in_ticks) ≡ true)
unfolding time_subtract is_due
due_after n now h k = (rw (ticks-age n now h (omega arith)) (ground arith), ground arith)
