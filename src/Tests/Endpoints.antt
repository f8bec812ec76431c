-- ===== src/Tests/Endpoints.antt =====
-- Concrete runs of the theorems on the picking, the cost and the limits of endpoints.
use api_gateway.Prelude.{
  ◌≡◌, ◌<◌, ◌⊎◌, refl, true, false, not, none, some, List, [], ◌∷◌, map, arith, ℤ, pos, All, get,
  int_eq, Bool-cases, inl, inr, subst, sym, eq_ℤ,
}
use api_gateway.Formats.{RapiRow}
use api_gateway.Rapi.{Rapi, new_rapi}
use api_gateway.Rapi.Backoff.{IsSane}
use api_gateway.Rapi.Calls as RapiCalls
use api_gateway.Rapi.Invariant.{Inv, Reach, Step, new_rapi-Reach-Inv}
use api_gateway.Scheduler.Counters.{threshold_exceeded}
use api_gateway.Scheduler.Counters.History.{
  Request, IsHistory, Before, Monotone, counted, limit_reached, requests_in, tokens_in, minute_of,
  hour_of, threshold_exceeded-counted,
}
use api_gateway.Scheduler.Manager.{Manager, config_from_app_config, new_manager, counters_of}
use api_gateway.Scheduler.Manager.Settings.{AreUsable, new_manager-AreUsable}
use api_gateway.Scheduler.Endpoints.{pick_available}
use api_gateway.Scheduler.Endpoints.Scan.{IsValid}
use api_gateway.Scheduler.Endpoints.Best.{IsPick, pick_available-IsPick}
use api_gateway.Scheduler.Recovery.{
  advance_all, next_recovery, IsSettled, IsNext, advance_all-IsSettled, next_recovery_lem,
}
use api_gateway.Scheduler.Snapshot.{snapshot, counter_snapshot}
use api_gateway.Scheduler.Snapshot.Views.{
  shows_down, Call, own, recorded, snapshot-pickable, counter_snapshot-recorded,
}
use api_gateway.Tests.{cooldowns, utc, endpoint, fresh_manager}

cooldowns-IsSane : IsSane cooldowns
cooldowns-IsSane = record { some_default = refl; some_max = refl; fits = omega arith }

-- Endpoint 2 is cheaper than endpoint 1 but cools down until 110, and endpoint 3 is disabled.
abbrev cooling_rapi : Rapi
cooling_rapi = RapiCalls.on_session_failure 100 "500" 0 false (new_rapi (pos 2) cooldowns true 0)

cooling_rapi-Inv : Inv cooling_rapi
cooling_rapi-Inv =
    new_rapi-Reach-Inv (pos 2) cooldowns true 0 cooldowns-IsSane
      (Reach.also Reach.here (Step.fails 100 "500" 0 false))

abbrev manager : Manager
manager = record fresh_manager { rapis = (pos 2, cooling_rapi) ∷ [] }

manager-entities : (id : ℤ) (r : Rapi) → get id manager.rapis ≡ some r → Inv r
unfolding get
manager-entities id r h = elim (Bool-cases (eq_ℤ (pos 2) id)) [
  | inl e ↦ subst Inv (ground (arith, e, h)) cooling_rapi-Inv
  | inr e ↦ absurd (ground (arith, e, h))
]

manager-IsValid : IsValid manager
manager-IsValid = record { sane = cooldowns-IsSane; entities = manager-entities }

abbrev rows : List RapiRow
rows =
    endpoint (pos 1) (pos 5) ""
    ∷ endpoint (pos 2) (pos 3) ""
    ∷ record (endpoint (pos 3) (pos 1) "") { enabled = false }
    ∷ []

pick_available-IsPick_example :
    IsPick utc 105 105 manager rows "openai" (pick_available utc 105 105 manager rows "openai").1
pick_available-IsPick_example =
    pick_available-IsPick utc 105 105 manager rows "openai" manager-IsValid

-- Three requests in one day, the last two in one minute.
abbrev requests : List Request
requests = (90000000000, 40) ∷ (70000000000, 30) ∷ (10000000000, 20) ∷ []

requests-IsHistory : IsHistory requests
requests-IsHistory = ((omega arith, (omega arith, tt)), ((omega arith, tt), (tt, tt)))

days_mono : Monotone utc.day_start
days_mono t u h = omega arith

threshold_exceeded-counted_example :
    threshold_exceeded utc (counted utc requests) (endpoint (pos 1) (pos 5) "") 95000000000
    ≡ limit_reached utc requests (endpoint (pos 1) (pos 5) "") 95000000000
threshold_exceeded-counted_example =
    threshold_exceeded-counted utc requests (endpoint (pos 1) (pos 5) "") 95000000000 days_mono
      requests-IsHistory (omega arith, (omega arith, (omega arith, tt)))

new_manager-AreUsable_example : AreUsable (
    new_manager
      (config_from_app_config (pos 30) (pos 300) (pos 60) (pos 0) (pos 0) "platform")
      true)
new_manager-AreUsable_example =
    new_manager-AreUsable (pos 30) (pos 300) (pos 60) (pos 0) (pos 0) "platform" true (omega arith)
      (omega arith) (omega arith) (omega arith) (omega arith)

-- The cooldown of endpoint 2 ends at 110.
advance_all-IsSettled_example : All (λ e. IsSettled 120 e.1) (advance_all 120 120 manager).rapis
advance_all-IsSettled_example = advance_all-IsSettled 120 120 manager (cooling_rapi-Inv, tt)

next_recovery_lem_example :
    ((next_recovery 105 manager ≡ 0) ⊎ (105 < next_recovery 105 manager))
    × All (λ e. IsNext 105 (next_recovery 105 manager) e.1.0.wake_at) manager.rapis
    × All (λ e. IsNext 105 (next_recovery 105 manager) e.1.0.wake_at) manager.keys
next_recovery_lem_example = next_recovery_lem 105 manager

-- Snapshot: the same manager while endpoint 2 cools down.
snapshot-pickable_example :
    map shows_down (snapshot utc 105 105 manager).rapis
    ≡ map (λ e. not (RapiCalls.pickable 105 105 e.1).1) manager.rapis
snapshot-pickable_example = snapshot-pickable utc 105 manager (cooling_rapi-Inv, tt)

-- Requests of two endpoints.
abbrev calls : List Call
calls =
    (90000000000, pos 2, 40)
    ∷ (80000000000, pos 1, 5)
    ∷ (70000000000, pos 2, 30)
    ∷ (10000000000, pos 2, 20)
    ∷ []

own-calls : own (pos 2) calls ≡ requests
unfolding own
own-calls = refl

no-counters : get (pos 2) manager.counters ≡ none
unfolding get new_manager
no-counters = refl

counter_snapshot-recorded_example :
    counter_snapshot utc 95000000000 (pos 2, counters_of (recorded utc calls manager) (pos 2))
    ≡ record {
      rapi_id = pos 2;
      minute_req = requests_in minute_of (minute_of 95000000000) (own (pos 2) calls);
      minute_tok = tokens_in minute_of (minute_of 95000000000) (own (pos 2) calls);
      hour_req = requests_in hour_of (hour_of 95000000000) (own (pos 2) calls);
      hour_tok = tokens_in hour_of (hour_of 95000000000) (own (pos 2) calls);
      day_req = requests_in utc.day_start (utc.day_start 95000000000) (own (pos 2) calls);
      day_tok = tokens_in utc.day_start (utc.day_start 95000000000) (own (pos 2) calls);
    }
counter_snapshot-recorded_example =
    counter_snapshot-recorded utc 95000000000 (pos 2) calls manager no-counters days_mono
      (subst IsHistory (sym own-calls) requests-IsHistory)
      (subst (Before 95000000000) (sym own-calls) (omega arith, (omega arith, (omega arith, tt))))
