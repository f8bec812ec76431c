-- ===== src/Scheduler/Requests.antt =====
-- internal/scheduler/scheduler.go: EstimateCost and RetryAt, which read a request and a response.
use text.Mathlib.Text.{◌==◌ as str_eq}
use api_gateway.Prelude.{
  ℕ, ◌+◌, ◌/◌, none, some, List, [], ◌∷◌, if◌then◌else◌, ℤ, pos, ltb_ℤ, pos_part, of_bits, to_bits,
  ◌*◌,
}
use api_gateway.Clock.{Time, add, second}
use api_gateway.Host.{Library, Header}

-- The argument is the lengths of the messages' contents.
unfoldable pub estimate_cost : List ℕ → ℕ
estimate_cost [] = 1
estimate_cost (n ∷ ns) = estimate_cost ns + (n / 4 + 1)

-- The zero of Unix time, in nanoseconds since the zero Time.
abbrev pub unix_epoch : Time
unix_epoch = 62135596800 * second

-- A number of seconds as a Duration; the product wraps.
abbrev pub seconds : ℤ → ℤ
seconds s = of_bits (to_bits s * second)

unfoldable pub retry_at : Library → Time → Header → Time → Time
retry_at lib clock header fallback =
    let value =
      if str_eq (header "Retry-After") ""
      then header "X-RateLimit-Reset"
      else header "Retry-After" in
    if str_eq value "" then fallback else elim (lib.atoi value) [
      | some s ↦
          if ltb_ℤ (pos 1000000000) s
          then unix_epoch + pos_part s * second
          else add clock (seconds s)
      | none ↦ elim (lib.http_time value) [ some at ↦ at | none ↦ fallback ]
    ]
