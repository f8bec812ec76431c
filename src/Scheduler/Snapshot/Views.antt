-- ===== src/Scheduler/Snapshot/Views.antt =====
-- internal/scheduler/snapshot.go: the snapshot against the calls that the scheduler makes.
use api_gateway.Prelude.{
  ℕ, ◌≡◌, refl, Bool, not, ◌||◌, none, List, [], ◌∷◌, map, arith, ℤ, eq_ℤ, eq_ℤ_iff, int_eq,
  if◌then◌else◌, get, get-put, All,
}
use api_gateway.Clock.{Time}
use api_gateway.Host.{Host}
use api_gateway.Rapi.{Rapi}
use api_gateway.Rapi.Calls as RapiCalls
use api_gateway.Rapi.Recovery.{is_ready, pickable_lem}
use api_gateway.Rapi.Invariant.{Inv}
use api_gateway.Scheduler.Counters.{count_request}
use api_gateway.Scheduler.Counters.History.{
  Request, IsHistory, Before, Monotone, counted, requests_in, tokens_in, minute_of, hour_of,
  counted-windows,
}
use api_gateway.Scheduler.Manager.{Manager, counters_of, record_request}
use api_gateway.Scheduler.Snapshot.{RapiSnapshot, rapi_snapshot, counter_snapshot, snapshot}

-- Whether the view of an endpoint says that it is out of service.
abbrev pub shows_down : RapiSnapshot → Bool
shows_down s = s.cooling_now || s.is_invalidated

rapi_snapshot-pickable :
    (now : Time) (id : ℤ) (r : Rapi)
    → Inv r
    → shows_down (rapi_snapshot now (id, r)) ≡ not (RapiCalls.pickable now now r).1
unfolding rapi_snapshot RapiCalls.snapshot is_ready
rapi_snapshot-pickable now id r v = ground (arith, (pickable_lem now now r v).0)

views :
    (now : Time) (rs : List (ℤ × Rapi))
    → All (λ e. Inv e.1) rs
    → map shows_down (map (rapi_snapshot now) rs)
      ≡ map (λ e. not (RapiCalls.pickable now now e.1).1) rs
views now [] v = refl
views now ((id, r) ∷ rs) v = rw (rapi_snapshot-pickable now id r v.0, views now rs v.1) refl

-- If every endpoint satisfies its invariant: the snapshot shows an endpoint as cooling or invalidated exactly if a pick at that time would refuse
-- its entity.
pub snapshot-pickable :
    (host : Host) (now : Time) (m : Manager)
    → All (λ e. Inv e.1) m.rapis
    → map shows_down (snapshot host now now m).rapis
      ≡ map (λ e. not (RapiCalls.pickable now now e.1).1) m.rapis
unfolding snapshot
snapshot-pickable host now m v = views now m.rapis v

-- A request of an endpoint: when it completed, whose it was and how many tokens it took.
abbrev pub Call : Type 0
Call = Time × ℤ × ℕ

-- The manager after it has recorded requests, of which the newest stands first.
pub recorded : Host → List Call → Manager → Manager
unfolding record_request
recorded host [] m = m
recorded host ((at, id, tokens) ∷ older) m =
    record_request host at id tokens (recorded host older m)

-- The requests of one endpoint.
unfoldable pub own : ℤ → List Call → List Request
own id [] = []
own id ((at, j, tokens) ∷ older) = if eq_ℤ j id then (at, tokens) ∷ own id older else own id older

counters_of-recorded :
    (host : Host) (id : ℤ) (h : List Call) (m : Manager)
    → get id m.counters ≡ none
    → counters_of (recorded host h m) id ≡ counted host (own id h)
unfolding recorded own counters_of counted record_request
counters_of-recorded host id [] m n = ground (arith, n)
counters_of-recorded host id ((at, j, tokens) ∷ older) m n = ground (
  arith,
  eq_ℤ_iff j id,
  get-put j id (count_request host at tokens (counters_of (recorded host older m) j))
      (recorded host older m).counters,
  counters_of-recorded host id older m n,
)

-- For an endpoint that had no counters before: the view of its counters shows how many of the recorded requests were its own and fell into
-- the current minute, hour and local day, and how many tokens they took. The clock does not run
-- backwards, and a later time has no earlier local midnight.
pub counter_snapshot-recorded :
    (host : Host) (now : Time) (id : ℤ) (h : List Call) (m : Manager)
    → get id m.counters ≡ none
    → Monotone host.day_start
    → IsHistory (own id h)
    → Before now (own id h)
    → counter_snapshot host now (id, counters_of (recorded host h m) id) ≡ record {
      rapi_id = id;
      minute_req = requests_in minute_of (minute_of now) (own id h);
      minute_tok = tokens_in minute_of (minute_of now) (own id h);
      hour_req = requests_in hour_of (hour_of now) (own id h);
      hour_tok = tokens_in hour_of (hour_of now) (own id h);
      day_req = requests_in host.day_start (host.day_start now) (own id h);
      day_tok = tokens_in host.day_start (host.day_start now) (own id h);
    }
unfolding counter_snapshot
counter_snapshot-recorded host now id h m n mono o b =
    let ((m0, m1), (h0, h1), (d0, d1)) = counted-windows host (own id h) now mono o b in
    rw (counters_of-recorded host id h m n, m0, m1, h0, h1, d0, d1) refl
