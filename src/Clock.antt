-- ===== src/Clock.antt =====
-- Go's time.Time and time.Duration, as the packages fsm, entity and scheduler use them.
-- A time is the number of nanoseconds since the zero Time (year 1, UTC), so `IsZero` is equality
-- with 0; no time before the zero Time is modelled. A duration is an int64 of nanoseconds.
use api_gateway.Prelude.{
  ℕ, suc, ◌+◌, ◌-◌, ◌%◌, Bool, ◌||◌, ltb, ◌==◌, if◌then◌else◌, ℤ, pos, negsuc,
}

abbrev pub Time : Type 0
Time = ℕ

abbrev pub Duration : Type 0
Duration = ℤ

abbrev pub is_zero : Time → Bool
is_zero t = t == 0

-- `t.After(u)` and `t.Before(u)`.
abbrev pub after : Time → Time → Bool
after t u = ltb u t

abbrev pub before : Time → Time → Bool
before t u = ltb t u

-- `t.Add(d)`, for a sum that is not before the zero Time.
abbrev pub add : Time → Duration → Time
add t (pos n) = t + n
add t (negsuc n) = t - suc n

-- `t.Truncate(d)`: down to a multiple of `d` since the zero Time.
abbrev pub truncate : Time → ℕ → Time
truncate t d = t - t % d

abbrev pub second : ℕ
second = 1000000000

abbrev pub minute : ℕ
minute = 60000000000

abbrev pub hour : ℕ
hour = 3600000000000

-- The earlier of two times, where the zero Time stands for none.
abbrev pub min_non_zero : Time → Time → Time
min_non_zero a b = if is_zero a then b else if is_zero b || before a b then a else b
