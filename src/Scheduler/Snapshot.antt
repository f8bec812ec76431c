-- ===== src/Scheduler/Snapshot.antt =====
-- internal/scheduler/snapshot.go: the view of the Manager's state that the dashboard shows. The code
-- takes the maps in any order; here the order is that of the association lists.
pub mod Views
use api_gateway.Prelude.{
  ℕ, Bool, true, false, List, [], ◌∷◌, map, String, if◌then◌else◌, ltb, ◌==◌, ℤ,
}
use api_gateway.Clock.{Time, truncate, minute, hour}
use api_gateway.Host.{Host}
use api_gateway.Key.{Key}
use api_gateway.Key.Calls as KeyCalls
use api_gateway.Rapi.{Rapi}
use api_gateway.Rapi.Calls as RapiCalls
use api_gateway.Scheduler.Counters.{RapiCounters, live_reqs, live_toks}
use api_gateway.Scheduler.Manager.{Manager, WaitQueue}

pub record RapiSnapshot : Type 0 where
  pub id : ℤ
  pub cooling_now : Bool
  pub recover_at : Time
  pub reason : String
  pub consecutive_failures : ℕ
  pub last_success : Time
  pub last_failure : Time
  pub is_invalidated : Bool

pub record KeySnapshot : Type 0 where
  pub id : ℤ
  pub cooling_now : Bool
  pub recover_at : Time
  pub reason : String

pub record CounterSnapshot : Type 0 where
  pub rapi_id : ℤ
  pub minute_req : ℕ
  pub minute_tok : ℕ
  pub hour_req : ℕ
  pub hour_tok : ℕ
  pub day_req : ℕ
  pub day_tok : ℕ

pub record QueueSnapshot : Type 0 where
  pub lapi_id : ℤ
  pub count : ℕ

pub record Snapshot : Type 0 where
  pub rapis : List RapiSnapshot
  pub keys : List KeySnapshot
  pub counters : List CounterSnapshot
  pub queues : List QueueSnapshot

unfoldable pub rapi_snapshot : Time → ℤ × Rapi → RapiSnapshot
unfolding RapiCalls.snapshot
rapi_snapshot clock (id, e) =
    let es = RapiCalls.snapshot clock e in
    record {
      id = es.id;
      cooling_now = es.cooling_now;
      recover_at = es.recover_at;
      reason = es.reason;
      consecutive_failures = es.consecutive_failures;
      last_success = es.last_success;
      last_failure = es.last_failure;
      is_invalidated = es.is_invalidated;
    }

unfoldable pub key_snapshot : Time → ℤ × Key → KeySnapshot
unfolding KeyCalls.snapshot
key_snapshot clock (id, e) =
    let ks = KeyCalls.snapshot clock e in
    record {
      id = ks.id;
      cooling_now = ks.cooling_now;
      recover_at = ks.recover_at;
      reason = ks.reason;
    }

-- The counts of the current windows; a bucket of an earlier window counts as empty.
unfoldable pub counter_snapshot : Host → Time → ℤ × RapiCounters → CounterSnapshot
counter_snapshot host now (id, c) = record {
  rapi_id = id;
  minute_req = live_reqs (truncate now minute) c.in_minute;
  minute_tok = live_toks (truncate now minute) c.in_minute;
  hour_req = live_reqs (truncate now hour) c.in_hour;
  hour_tok = live_toks (truncate now hour) c.in_hour;
  day_req = live_reqs (host.day_start now) c.in_day;
  day_tok = live_toks (host.day_start now) c.in_day;
}

-- Only the queues in which somebody waits.
unfoldable pub queue_snapshots : List (ℤ × WaitQueue) → List QueueSnapshot
queue_snapshots [] = []
queue_snapshots ((id, q) ∷ rest) =
    if ltb 0 q.count
    then record { lapi_id = id; count = q.count } ∷ queue_snapshots rest
    else queue_snapshots rest

unfoldable pub snapshot : Host → Time → Time → Manager → Snapshot
unfolding rapi_snapshot key_snapshot counter_snapshot queue_snapshots
snapshot host clock now m = record {
  rapis = map (rapi_snapshot clock) m.rapis;
  keys = map (key_snapshot clock) m.keys;
  counters = map (counter_snapshot host now) m.counters;
  queues = queue_snapshots m.queues;
}
