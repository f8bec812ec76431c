-- ===== src/Scheduler/Endpoints.antt =====
-- internal/scheduler/scheduler.go: PickAvailable.
pub mod Scan
pub mod Best
use text.Mathlib.Text.{◌==◌ as str_eq}
use api_gateway.Prelude.{
  ℕ, Bool, true, false, not, ◌&&◌, ◌||◌, Option, none, some, List, [], ◌∷◌, String, if◌then◌else◌,
  ℤ, ltb_ℤ, eq_ℤ, int_eq, get, put,
}
use api_gateway.Clock.{Time}
use api_gateway.Host.{Host}
use api_gateway.Formats.{RapiRow, supports_api_format}
use api_gateway.Rapi.{Rapi}
use api_gateway.Rapi.Calls.{pickable}
use api_gateway.Scheduler.Cost.{override_cost, compute_cost}
use api_gateway.Scheduler.Counters.{RapiCounters, no_counters}
use api_gateway.Scheduler.Scanning.{Picked, picked, unavailable, sooner}
use api_gateway.Scheduler.Sorting.{sort_stable}
use api_gateway.Scheduler.Manager.{Manager, rapi_of, set_rapi, counters_of}

unfoldable pub cost_of : Host → Manager → Time → RapiRow → ℤ
unfolding counters_of compute_cost
cost_of host m now r = compute_cost host (counters_of m r.id) r now

-- The test of the sort: cost, then the configured order, then the client's format.
unfoldable pub row_less : Host → Manager → Time → String → RapiRow → RapiRow → Bool
unfolding cost_of supports_api_format
row_less host m now prefer a b =
    let ca = cost_of host m now a in
    let cb = cost_of host m now b in
    if not (eq_ℤ ca cb)
    then ltb_ℤ ca cb
    else if not (eq_ℤ a.order_index b.order_index)
    then ltb_ℤ a.order_index b.order_index
    else if not (str_eq prefer "")
    then supports_api_format host a prefer && not (supports_api_format host b prefer)
    else false

unfoldable pub scan_rows : Time → Time → Manager → Time → List RapiRow → Manager × Picked RapiRow
unfolding rapi_of
scan_rows clock now m next [] = (m, unavailable next)
scan_rows clock now m next (r ∷ rs) =
    let (e, ok, at) = pickable clock now (rapi_of m clock r.id) in
    let skip = scan_rows clock now m next rs in
    let refused = scan_rows clock now (set_rapi r.id e m) (sooner next at) rs in
    if not r.enabled || not r.available
    then skip
    else if not ok
    then refused
    else (set_rapi r.id e m, picked r)

-- The empty counters that the comparisons store for the rows that have none, except for a row whose cost a time
-- period sets.
unfoldable pub store_counters :
    Host → Time → List RapiRow → List (ℤ × RapiCounters) → List (ℤ × RapiCounters)
unfolding get put override_cost
store_counters host now [] counters = counters
store_counters host now (r ∷ rs) counters =
    store_counters host now rs (elim (override_cost host r now) [
      | some cost ↦ counters
      | none ↦ elim (get r.id counters) [ some c ↦ counters | none ↦ put r.id no_counters counters ]
    ])

-- The sort compares nothing if there are fewer than two rows, and otherwise each row at least once.
unfoldable pub compared_counters :
    Host → Time → List RapiRow → List (ℤ × RapiCounters) → List (ℤ × RapiCounters)
unfolding store_counters
compared_counters host now [] counters = counters
compared_counters host now (r ∷ []) counters = counters
compared_counters host now (r ∷ q ∷ rs) counters = store_counters host now (r ∷ q ∷ rs) counters

-- The manager after the sort.
abbrev pub sorted_manager : Host → Time → List RapiRow → Manager → Manager
sorted_manager host now rows m = record m { counters = compared_counters host now rows m.counters }

unfoldable pub pick_available :
    Host → Time → Time → Manager → List RapiRow → String → Manager × Picked RapiRow
unfolding sort_stable row_less scan_rows compared_counters
pick_available host clock now m rows prefer =
    scan_rows clock now (sorted_manager host now rows m) 0
      (sort_stable (row_less host m now prefer) rows)
