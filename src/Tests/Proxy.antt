-- ===== src/Tests/Proxy.antt =====
-- Concrete runs of the theorems on the proxy.
use mathlib.Core.List.{Nodup, Nodup-cons, Nodup-nil, not-mem-nil, eq-or-mem_of_mem-cons}
use mathlib.Core.Logic.Or
use mathlib.Core.HLevel.{⊥_prop}
use text.Mathlib.Text.{◌==◌ as str_eq}
use api_gateway.Prelude.{
  List, ℕ, ◌+◌, ◌≡◌, refl, Bool, true, false, none, some, Option, [], ◌∷◌, arith, pos, get, int_eq,
  map, ◌==◌, if◌then◌else◌,
}
use api_gateway.Clock.{add}
use api_gateway.Host.{Library}
use api_gateway.Entity.{PlatformKey}
use api_gateway.Key.{new_key}
use api_gateway.Key.Calls as KeyCalls
use api_gateway.Rapi.Calls as RapiCalls
use api_gateway.Rapi.{session_cooldown, new_rapi}
use api_gateway.Formats.{RapiRow}
use api_gateway.Scheduler.Manager.{rapi_of, key_of, new_manager}
use api_gateway.Scheduler.Reachable.{IsValid}
use api_gateway.Gateway.{Gateway}
use api_gateway.Gateway.Pool.{handle_all_keys_unavailable, mark_pool_exhausted}
use api_gateway.Gateway.Attempt.{Reply, Tried, failed, answered, handle_reply, try_key_for_rapi}
use api_gateway.Gateway.Ends.{try_key_for_rapi_ends}
use api_gateway.Gateway.Losses.{Loses, handle_reply-Loses}
use api_gateway.Gateway.Alignment.{mark_pool_exhausted-handle_all_keys_unavailable}
use api_gateway.Gateway.Request.{World, Response, refused, handle_non_streaming_request}
use api_gateway.Gateway.Request.Relayed.{IsRelayed, handle_non_streaming_request-IsRelayed}
use api_gateway.Gateway.Stream.{Streams, Frame, Ending, body, ok, handle_streaming_request}
use api_gateway.Gateway.Stream.Frames.{IsOneStream, handle_streaming_request-IsOneStream}
use api_gateway.Tests.{utc, key_row, endpoint, fresh_manager}
use api_gateway.Tests.Entities.{cooldowns-IsSane}

abbrev library : Library
library = record {
  to_lower = λ s. s;
  trim_space = λ s. s;
  contains = λ s t. str_eq s t;
  split_commas = λ s. s ∷ [];
  atoi = λ s. none;
  http_time = λ s. none;
  show = λ n. "429";
}

abbrev two_keys : RapiRow
two_keys = record (endpoint (pos 7) (pos 1) "") {
  source = "manual";
  keys = key_row (pos 1) (pos 0) ∷ key_row (pos 2) (pos 1) ∷ [];
}

abbrev proxy : Gateway
proxy = record {
  scheduler = fresh_manager;
  blocks = [];
  block_ttl = pos 1000;
  has_notify = true;
  notices = [];
  writes = [];
}

proxy-IsValid : IsValid proxy.scheduler
unfolding get new_manager
proxy-IsValid = record {
  endpoints = record { sane = cooldowns-IsSane; entities = λ id r h. absurd (ground (arith, h)) };
  credentials = record { cooled = refl; entities = λ id k h. absurd (ground (arith, h)) };
}

two_keys-Nodup : Nodup (map (λ k. k.id) two_keys.keys)
two_keys-Nodup = Nodup-cons.1 (
  (λ h. Or.elim ⊥_prop (eq-or-mem_of_mem-cons h) (λ e. ground (arith, e)) not-mem-nil),
  Nodup-cons.1 (not-mem-nil, Nodup-nil),
)

-- The first key meets a rate limit and the second one a timeout.
abbrev replies : ℕ → PlatformKey → Reply
replies n k = if n == 0 then answered 429 "slow down" (λ s. "") else failed "timeout" true

try_key_for_rapi_ends_example :
    (out : Gateway × Tried) × (try_key_for_rapi library (λ n. 100) replies two_keys "alice" 3 proxy
      ≡ some out)
try_key_for_rapi_ends_example =
    try_key_for_rapi_ends library 100 replies two_keys "alice" proxy 3 proxy-IsValid refl
      two_keys-Nodup (omega arith) (omega arith)

handle_reply-Loses_example :
    Loses 100
      (pos 7)
      (key_row (pos 1) (pos 0))
      proxy
      (handle_reply library 100 two_keys
        (key_row (pos 1) (pos 0))
        (answered 429 "slow down" (λ s. ""))
        proxy).0
unfolding key_of get new_manager new_key handle_reply
handle_reply-Loses_example =
    handle_reply-Loses library 100 two_keys (key_row (pos 1) (pos 0)) proxy proxy-IsValid refl refl
      (answered 429 "slow down" (λ s. "")) refl

-- Both keys answer 200 in the first round.
abbrev world : World
world = record {
  clock = λ n. 100 + n;
  key_clock = λ n i. 100 + n;
  send = λ n i k. answered 200 "" (λ s. "");
  wait = λ n at. none;
  url = λ r f. "https://a/v1";
  convert_error = λ r f. none;
  token_usage = λ n. pos 12;
  body = λ n. "hello";
  convert_response = λ from to raw. none;
}

abbrev or_else : Option (Gateway × Bool × Response) → Gateway × Bool × Response
or_else none = (proxy, true, refused "")
or_else (some r) = r

-- The gateway after the request.
abbrev served : Gateway
unfolding handle_non_streaming_request
served =
    (or_else (
      handle_non_streaming_request library utc world (two_keys ∷ []) "alice" "openai" (40 ∷ []) 4 3
        proxy)).0

handle_non_streaming_request-IsRelayed_example :
    IsRelayed utc world (two_keys ∷ []) "openai" 200 "hello"
unfolding handle_non_streaming_request new_manager get RapiCalls.pickable new_rapi KeyCalls.pickable
    KeyCalls.sync new_key
handle_non_streaming_request-IsRelayed_example =
    handle_non_streaming_request-IsRelayed library utc world (two_keys ∷ []) "alice" "openai"
      (40 ∷ []) 4 3 proxy served false 200 "hello" refl

-- The pool of the endpoint recovers at 5000, and the endpoint after the backoff of two failures.
mark_pool_exhausted-handle_all_keys_unavailable_example :
    (rapi_of
      (handle_all_keys_unavailable library 100 two_keys
        (mark_pool_exhausted library 100 two_keys two_keys.keys 5000 proxy)).scheduler
      100
      (pos 7)).0.wake_at
    ≡ add 100 (
        session_cooldown
          (rapi_of proxy.scheduler 100 (pos 7)).1.cfg
          false
          ((rapi_of proxy.scheduler 100 (pos 7)).1.consecutive_failures + 2))
unfolding rapi_of get new_manager new_rapi
mark_pool_exhausted-handle_all_keys_unavailable_example =
    mark_pool_exhausted-handle_all_keys_unavailable library 100 two_keys two_keys.keys 5000 proxy
      refl refl refl

-- Every upstream sends two chunks, and the client stays connected.
abbrev streams : Streams
streams = record { chunks = λ n. true ∷ true ∷ []; converted = λ n. (2, false) }

abbrev or_nothing :
    Option (Gateway × Bool × List Frame × Ending) → Gateway × Bool × List Frame × Ending
or_nothing none = (proxy, true, [], ok)
or_nothing (some r) = r

-- The gateway after the stream.
abbrev streamed : Gateway
unfolding handle_streaming_request
streamed =
    (or_nothing (
      handle_streaming_request library utc world streams true (two_keys ∷ []) "alice" "openai"
        (40 ∷ []) 4 3 proxy)).0

handle_streaming_request-IsOneStream_example : IsOneStream (body 0 ∷ body 0 ∷ []) ok
unfolding handle_streaming_request new_manager get RapiCalls.pickable new_rapi KeyCalls.pickable
    KeyCalls.sync new_key
handle_streaming_request-IsOneStream_example =
    handle_streaming_request-IsOneStream library utc world streams true (two_keys ∷ []) "alice"
      "openai" (40 ∷ []) 4 3 proxy streamed false (body 0 ∷ body 0 ∷ []) ok refl
