-- ===== src/Scheduler/Counters.antt =====
-- internal/scheduler/scheduler.go: request and token counters per minute, hour and day, and the limits
-- of an endpoint. Counts are left unbounded, and token counts are taken to be at least 0.
pub mod History
use api_gateway.Prelude.{
  ℕ, ◌+◌, Bool, true, false, ◌&&◌, ◌||◌, List, [], ◌∷◌, if◌then◌else◌, leb, ◌==◌, ℤ, pos_part,
  is_positive,
}
use api_gateway.Clock.{Time, truncate, minute, hour}
use api_gateway.Host.{Host}
use api_gateway.Formats.{RapiRow}

pub record TimeBucket : Type 0 where
  pub start : Time
  pub reqs : ℕ
  pub toks : ℕ

pub record RapiCounters : Type 0 where
  pub in_minute : TimeBucket
  pub in_hour : TimeBucket
  pub in_day : TimeBucket

abbrev pub empty_bucket : Time → TimeBucket
empty_bucket start = record { start = start; reqs = 0; toks = 0 }

-- `&rapiCounters{}`.
abbrev pub no_counters : RapiCounters
no_counters = record {
  in_minute = empty_bucket 0;
  in_hour = empty_bucket 0;
  in_day = empty_bucket 0;
}

unfoldable pub bump : Time → ℕ → TimeBucket → TimeBucket
bump start tokens b =
    let c = if b.start == start then b else empty_bucket start in
    record c { reqs = c.reqs + 1; toks = c.toks + tokens }

-- The body of RecordRequest on the counters of one endpoint.
unfoldable pub count_request : Host → Time → ℕ → RapiCounters → RapiCounters
unfolding bump
count_request host now tokens c = record {
  in_minute = bump (truncate now minute) tokens c.in_minute;
  in_hour = bump (truncate now hour) tokens c.in_hour;
  in_day = bump (host.day_start now) tokens c.in_day;
}

abbrev pub live_reqs : Time → TimeBucket → ℕ
live_reqs start b = if b.start == start then b.reqs else 0

abbrev pub live_toks : Time → TimeBucket → ℕ
live_toks start b = if b.start == start then b.toks else 0

-- `limit > 0 && count >= limit`.
abbrev pub reached : ℤ → ℕ → Bool
reached limit n = is_positive limit && leb (pos_part limit) n

unfoldable pub threshold_exceeded : Host → RapiCounters → RapiRow → Time → Bool
threshold_exceeded host c r now =
    let minute_start = truncate now minute in
    let hour_start = truncate now hour in
    let day_start = host.day_start now in
    reached r.rpm_limit (live_reqs minute_start c.in_minute)
    || reached r.rph_limit (live_reqs hour_start c.in_hour)
    || reached r.rpd_limit (live_reqs day_start c.in_day)
    || reached r.tpm_limit (live_toks minute_start c.in_minute)
    || reached r.tph_limit (live_toks hour_start c.in_hour)
    || reached r.tpd_limit (live_toks day_start c.in_day)
