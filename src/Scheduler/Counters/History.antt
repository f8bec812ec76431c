-- ===== src/Scheduler/Counters/History.antt =====
-- internal/scheduler/scheduler.go: the counters against the history of requests, newest first.
use api_gateway.Prelude.{
  ℕ, ◌+◌, ◌≤◌, ◌<◌, ◌≡◌, refl, Bool, ◌||◌, List, [], ◌∷◌, if◌then◌else◌, ◌==◌, arith, All,
}
use api_gateway.Clock.{Time, truncate, minute, hour}
use api_gateway.Host.{Host}
use api_gateway.Formats.{RapiRow}
use api_gateway.Scheduler.Counters.{
  TimeBucket, RapiCounters, empty_bucket, no_counters, bump, count_request, live_reqs, live_toks,
  reached, threshold_exceeded,
}

-- A request: when it completed and how many tokens it took.
abbrev pub Request : Type 0
Request = Time × ℕ

-- The counters after a history.
unfoldable pub counted : Host → List Request → RapiCounters
unfolding count_request
counted host [] = no_counters
counted host ((at, tokens) ∷ older) = count_request host at tokens (counted host older)

-- How many requests fell into the window that begins at `start`, and how many tokens they took.
pub requests_in : (Time → Time) → Time → List Request → ℕ
requests_in window start [] = 0
requests_in window start ((at, tokens) ∷ older) =
    if window at == start
    then requests_in window start older + 1
    else requests_in window start older

pub tokens_in : (Time → Time) → Time → List Request → ℕ
tokens_in window start [] = 0
tokens_in window start ((at, tokens) ∷ older) =
    if window at == start
    then tokens_in window start older + tokens
    else tokens_in window start older

-- Every request of the history is at most as late as a time.
abbrev pub Before : Time → List Request → Type 0
Before t = All (λ r. r.0 ≤ t)

-- The newest request stands first.
abbrev pub IsHistory : List Request → Type 0
IsHistory [] = Unit
IsHistory ((at, tokens) ∷ older) = Before at older × IsHistory older

abbrev pub Monotone : (Time → Time) → Type 0
Monotone window = (t u : Time) → t ≤ u → window t ≤ window u

bucket : (Time → Time) → List Request → TimeBucket
unfolding bump
bucket window [] = empty_bucket 0
bucket window ((at, tokens) ∷ older) = bump (window at) tokens (bucket window older)

module _ (window : Time → Time) (mono : Monotone window) where
  Before-trans : (t u : Time) (h : List Request) → t ≤ u → Before t h → Before u h
  Before-trans t u [] le b = tt
  Before-trans t u (r ∷ h) le b = (omega arith, Before-trans t u h le b.1)

  none_later :
      (s : Time) (t : Time) (h : List Request)
      → Before t h
      → window t < s
      → (requests_in window s h ≡ 0) × (tokens_in window s h ≡ 0)
  unfolding requests_in tokens_in
  none_later s t [] b lt = (refl, refl)
  none_later s t ((at, tokens) ∷ h) b lt = ground (arith, mono at t b.0, none_later s t h b.1 lt)

  bucket_lem :
      (h : List Request) (now : Time)
      → IsHistory h
      → Before now h
      → (live_reqs (window now) (bucket window h) ≡ requests_in window (window now) h)
        × (live_toks (window now) (bucket window h) ≡ tokens_in window (window now) h)
  unfolding bucket bump requests_in tokens_in
  bucket_lem [] now o b = ground arith
  bucket_lem ((at, tokens) ∷ h) now o b =
      ground (arith, mono at now b.0, bucket_lem h at o.1 o.0, none_later (window now) at h o.0)

abbrev pub minute_of : Time → Time
minute_of t = truncate t minute

abbrev pub hour_of : Time → Time
hour_of t = truncate t hour

minute_of_mono : Monotone minute_of
minute_of_mono t u h = omega arith

hour_of_mono : Monotone hour_of
hour_of_mono t u h = omega arith

counted_parts :
    (host : Host) (h : List Request)
    → counted host h ≡ record {
      in_minute = bucket minute_of h;
      in_hour = bucket hour_of h;
      in_day = bucket host.day_start h;
    }
unfolding counted bucket count_request
counted_parts host [] = refl
counted_parts host ((at, tokens) ∷ h) = rw (counted_parts host h) refl

-- The counts in the three buckets, where they are of the current window, are those of the history.
pub counted-windows :
    (host : Host) (h : List Request) (now : Time)
    → Monotone host.day_start
    → IsHistory h
    → Before now h
    → let c = counted host h in
      ((live_reqs (minute_of now) c.in_minute ≡ requests_in minute_of (minute_of now) h)
        × (live_toks (minute_of now) c.in_minute ≡ tokens_in minute_of (minute_of now) h))
      × ((live_reqs (hour_of now) c.in_hour ≡ requests_in hour_of (hour_of now) h)
          × (live_toks (hour_of now) c.in_hour ≡ tokens_in hour_of (hour_of now) h))
      × ((live_reqs (host.day_start now) c.in_day
            ≡ requests_in host.day_start (host.day_start now) h)
          × (live_toks (host.day_start now) c.in_day
              ≡ tokens_in host.day_start (host.day_start now) h))
counted-windows host h now mono o b = rw (counted_parts host h) (
  bucket_lem minute_of minute_of_mono h now o b,
  bucket_lem hour_of hour_of_mono h now o b,
  bucket_lem host.day_start mono h now o b,
)

-- Six limits against the requests and tokens of the current minute, hour and day.
pub limit_reached : Host → List Request → RapiRow → Time → Bool
limit_reached host h r now =
    reached r.rpm_limit (requests_in minute_of (minute_of now) h)
    || reached r.rph_limit (requests_in hour_of (hour_of now) h)
    || reached r.rpd_limit (requests_in host.day_start (host.day_start now) h)
    || reached r.tpm_limit (tokens_in minute_of (minute_of now) h)
    || reached r.tph_limit (tokens_in hour_of (hour_of now) h)
    || reached r.tpd_limit (tokens_in host.day_start (host.day_start now) h)

-- The three buckets decide as a count over the whole history of requests would: a limit is exceeded
-- exactly if it is positive and that many requests (or tokens) fell into the current minute, hour or
-- local day. The clock does not run backwards, and a later time has no earlier local midnight.
pub threshold_exceeded-counted :
    (host : Host) (h : List Request) (r : RapiRow) (now : Time)
    → Monotone host.day_start
    → IsHistory h
    → Before now h
    → threshold_exceeded host (counted host h) r now ≡ limit_reached host h r now
unfolding threshold_exceeded limit_reached
threshold_exceeded-counted host h r now mono o b =
    let ((m0, m1), (h0, h1), (d0, d1)) = counted-windows host h now mono o b in
    rw (m0, h0, d0, m1, h1, d1) refl
