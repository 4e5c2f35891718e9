-- ===== src/Clock/Fakes.antt =====
-- src/shared/clock/clock.ts: the fake clock; `none` stands for a RangeError.
use modular_hx_fastapi.Common.{
  Bool, Num, Option, if◌then◌else◌, is_integer, is_safe_integer, leb, ltb, max_safe_integer, nat,
  neg, non_integer, none, not, some, suc, true, ℕ, ◌*◌, ◌+◌, ◌-◌, ◌||◌,
}

pub record FakeClock : Type 0 where
  pub wall : Num
  pub elapsed : ℕ

-- `validMillis`: time values of dates are integers or NaN.
unfoldable pub valid_millis : Num → Option Num
valid_millis ms = if is_integer ms then some ms else none

abbrev at_wall : ℕ → Option Num → Option FakeClock
at_wall elapsed none = none
at_wall elapsed (some ms) = some (record { wall = ms; elapsed = elapsed })

unfoldable pub new_clock : Num → Option FakeClock
new_clock date = at_wall 0 (valid_millis date)

unfoldable pub set_wall : Num → FakeClock → Option FakeClock
set_wall date c = at_wall c.elapsed (valid_millis date)

-- `x + n`.
abbrev pub plus : Num → ℕ → Num
plus (nat a) n = nat (a + n)
plus (neg a) n = if ltb a n then nat (n - suc a) else neg (a - n)
plus non_integer n = non_integer

-- `Math.abs(x) > 8640000000000000`.
abbrev pub out_of_dates : Num → Bool
out_of_dates (nat a) = ltb 8640000000000000 a
out_of_dates (neg a) = leb 8640000000000000 a
out_of_dates non_integer = true

-- `advance` by a number that is a safe integer of at least 0.
abbrev pub advance_by : ℕ → FakeClock → Option FakeClock
advance_by n c =
    if not (is_safe_integer (plus c.wall n)) || out_of_dates (plus c.wall n)
    then none
    else some (record { wall = plus c.wall n; elapsed = c.elapsed + n * 1000000 })

unfoldable pub advance : Num → FakeClock → Option FakeClock
advance (nat n) c = if leb n max_safe_integer then advance_by n c else none
advance (neg n) c = none
advance non_integer c = none
