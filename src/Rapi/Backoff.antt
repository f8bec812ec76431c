-- ===== src/Rapi/Backoff.antt =====
-- internal/entity/rapi.go: how long an endpoint cools down after a session failure.
use Prim.Native.Nat.{min}
use native.Mathlib.Nat.{pow-le-pow_right, one-le-pow}
use api_gateway.Prelude.{
  ℕ, zero, suc, ◌-◌, ◌*◌, ◌^◌, ◌≡◌, refl, ◌<◌, ◌≤◌, Bool, true, false, ◌&&◌, arith, if◌then◌else◌,
  ℤ, pos, negsuc, pos_part, is_positive, shift_left,
}
use api_gateway.Clock.{Time, add}
use api_gateway.Entity.{CooldownConfig, SessionFailurePayload}
use api_gateway.Rapi.{backoff, session_cooldown, session_until, min_int}

-- Positive cooldowns, and a default that the shift by 6 keeps within an int64 (about 4.5 years).
pub record IsSane (c : CooldownConfig) : Type 0 where
  pub some_default : is_positive c.default_cooldown ≡ true
  pub some_max : is_positive c.max_cooldown ≡ true
  pub fits : pos_part c.default_cooldown * 64 < 9223372036854775808

shift_left_lem :
    (d k : ℕ) → k ≤ 6 → d * 64 < 9223372036854775808 → shift_left (pos d) k ≡ pos (d * 2 ^ k)
shift_left_lem d zero h b = ground arith
shift_left_lem d (suc zero) h b = ground arith
shift_left_lem d (suc (suc zero)) h b = ground arith
shift_left_lem d (suc (suc (suc zero))) h b = ground arith
shift_left_lem d (suc (suc (suc (suc zero)))) h b = ground arith
shift_left_lem d (suc (suc (suc (suc (suc zero))))) h b = ground arith
shift_left_lem d (suc (suc (suc (suc (suc (suc zero)))))) h b = ground arith
shift_left_lem d (suc (suc (suc (suc (suc (suc (suc k))))))) h b = absurd (omega arith)

min_int-le : (a b : ℕ) → min_int a b ≤ b
min_int-le a b = ground arith

-- The exponent of the backoff after a number of failures in a row.
unfoldable pub exponent : CooldownConfig → ℕ → ℕ
exponent c failures = if c.exponential_backoff then min_int (failures - 1) 6 else 0

exponent-le : (c : CooldownConfig) (n : ℕ) → exponent c n ≤ 6
unfolding exponent
exponent-le c n = ground (arith, min_int-le (n - 1) 6)

exponent_mono : (c : CooldownConfig) (m n : ℕ) → m ≤ n → exponent c m ≤ exponent c n
unfolding exponent
exponent_mono c m n h = ground arith

sane_default : (d : ℤ) → is_positive d ≡ true → d ≡ pos (pos_part d)
sane_default (pos n) h = refl
sane_default (negsuc n) h = ground arith

backoff-pos :
    (c : CooldownConfig) (n d : ℕ)
    → c.default_cooldown ≡ pos d
    → d * 64 < 9223372036854775808
    → backoff c n ≡ pos (d * 2 ^ exponent c n)
unfolding backoff exponent
backoff-pos c n d e b =
    ground (arith, shift_left_lem d (min_int (n - 1) 6) (min_int-le (n - 1) 6) b)

backoff_lem :
    (c : CooldownConfig) (n : ℕ)
    → IsSane c
    → backoff c n ≡ pos (pos_part c.default_cooldown * 2 ^ exponent c n)
backoff_lem c n s =
    backoff-pos c n (pos_part c.default_cooldown) (sane_default c.default_cooldown s.some_default)
      s.fits

-- With positive cooldowns within range: a failure that is not a timeout cools the endpoint down for the default cooldown, doubled once for
-- each failure in a row after the first, six times at most, and never longer than the maximum.
pub session_cooldown_lem :
    (c : CooldownConfig) (n : ℕ)
    → IsSane c
    → session_cooldown c false n
      ≡ pos (min (pos_part c.default_cooldown * 2 ^ exponent c n) (pos_part c.max_cooldown))
unfolding session_cooldown
session_cooldown_lem c n s =
    ground (arith, backoff_lem c n s, sane_default c.max_cooldown s.some_max)

pow_mono : (d m n : ℕ) → m ≤ n → d * 2 ^ m ≤ d * 2 ^ n
pow_mono d m n h = let p = pow-le-pow_right {n = 2} (omega arith) h in grind arith

-- With positive cooldowns within range: more failures in a row that are not timeouts never shorten the
-- cooldown.
pub session_cooldown_mono :
    (c : CooldownConfig) (m n : ℕ)
    → IsSane c
    → m ≤ n
    → pos_part (session_cooldown c false m) ≤ pos_part (session_cooldown c false n)
session_cooldown_mono c m n s h =
    rw (session_cooldown_lem c m s, session_cooldown_lem c n s)
      (omega (
        arith,
        pow_mono (pos_part c.default_cooldown) (exponent c m) (exponent c n)
            (exponent_mono c m n h),
      ))

pow-pos : (k : ℕ) → 0 < 2 ^ k
pow-pos k = one-le-pow k 2 (omega arith)

product-pos : (d k : ℕ) → 0 < d → 0 < d * 2 ^ k
product-pos d k h = let p = pow-pos k in grind arith

clipped-pos :
    (c : CooldownConfig) (n : ℕ) → IsSane c → is_positive (session_cooldown c false n) ≡ true
clipped-pos c n s = rw (session_cooldown_lem c n s) (
    ground (
      arith,
      product-pos (pos_part c.default_cooldown) (exponent c n),
      s.some_default,
      s.some_max,
      sane_default c.default_cooldown s.some_default,
      sane_default c.max_cooldown s.some_max,
    ))

session_cooldown-timeout :
    (c : CooldownConfig) (t : Bool) (n : ℕ)
    → session_cooldown c t n ≡ (
        if t && is_positive c.timeout_cooldown
        then c.timeout_cooldown
        else session_cooldown c false n)
unfolding session_cooldown
session_cooldown-timeout c t n = ground arith

pub session_cooldown-pos :
    (c : CooldownConfig) (t : Bool) (n : ℕ) → IsSane c → is_positive (session_cooldown c t n) ≡ true
session_cooldown-pos c t n s =
    rw (session_cooldown-timeout c t n) (ground (arith, clipped-pos c n s))

pub add-pos : (now : Time) (d : ℤ) → is_positive d ≡ true → now < add now d
add-pos now d h = ground arith

-- With positive cooldowns within range: the cooldown of a session failure ends after now, with and without
-- a Retry-After.
pub session_until_later :
    (c : CooldownConfig) (p : SessionFailurePayload) (n : ℕ) (now : Time)
    → IsSane c
    → now < session_until c p n now
unfolding session_until
session_until_later c p n now s = ground (
  arith,
  add-pos now (session_cooldown c p.is_timeout n) (session_cooldown-pos c p.is_timeout n s),
)
