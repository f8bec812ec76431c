-- ===== src/Tests/Entities.antt =====
-- Concrete runs of the theorems on the state machines and on single entities.
use api_gateway.Prelude.{
  ◌≡◌, ◌⊎◌, refl, Bool, true, false, not, ◌&&◌, none, some, List, [], ◌∷◌, arith, if◌then◌else◌,
  pos, negsuc,
}
use Prim.Native.Nat.{min}
use api_gateway.Prelude.{◌*◌, ◌^◌}
use api_gateway.Clock.{Time}
use api_gateway.Fsm.{Transition, register_all, match_locked}
use api_gateway.Fsm.Index.{scan, no_rules, match_locked-scan}
use api_gateway.Entity.{
  State, healthy, unavailable, platform_failed, invalidated, Event, detect_failure, Payload,
  eq_state, state_eq, event_eq, key_row_usable, set_rapi_unavailable, PlatformKey,
}
use api_gateway.Key.{Key, new_key}
use api_gateway.Key.Calls as KeyCalls
use api_gateway.Key.Invariant as KeyInvariant
use api_gateway.Key.Invariant.{new_key-Reach-Inv}
use api_gateway.Key.Sync as KeySync
use api_gateway.Key.Sync.{pickable-sync}
use api_gateway.Key.Stuck.{picks, wakes, polls, platform_failure_stuck}
use api_gateway.Rapi.{Rapi, new_rapi, fire_rapi, session_cooldown}
use api_gateway.Rapi.Calls as RapiCalls
use api_gateway.Rapi.Backoff.{IsSane, exponent, session_cooldown_lem}
use api_gateway.Rapi.Invariant as RapiInvariant
use api_gateway.Rapi.Invariant.{new_rapi-Reach-Inv}
use api_gateway.Rapi.Recovery as Recovery
use api_gateway.Rapi.Recovery.{pickable_lem, invalidated_refused, on_all_keys_unavailable_first}
use api_gateway.Platform.{
  new_platform, probes, is_available, last_probe, logged, probes-new_platform,
}
use api_gateway.Tests.{cooldowns, key_row}

-- Key.Invariant: a key that fails, is disabled by its row and is enabled again.
abbrev disabled_row : PlatformKey
disabled_row = record (key_row (pos 1) (pos 0)) { enabled = false }

abbrev failed_key : Key
failed_key = (KeyCalls.on_temporary_failure 100 "429" 0 false (new_key (pos 1) cooldowns true 0)).0

failed_key-Reach : KeyInvariant.Reach (new_key (pos 1) cooldowns true 0) failed_key
failed_key-Reach =
    KeyInvariant.Reach.also KeyInvariant.Reach.here
      (KeyInvariant.Step.fails_for_now 100 "429" 0 false)

new_key-Reach-Inv_example : KeyInvariant.Inv (KeyCalls.sync disabled_row 105 105 failed_key)
new_key-Reach-Inv_example =
    new_key-Reach-Inv (pos 1) cooldowns true 0 refl
      (KeyInvariant.Reach.also failed_key-Reach (KeyInvariant.Step.syncs disabled_row 105 105))

failed_key-Inv : KeyInvariant.Inv failed_key
failed_key-Inv = new_key-Reach-Inv (pos 1) cooldowns true 0 refl failed_key-Reach

-- Key.Sync: the cooldown of the failed key is over at 110.
pickable-sync_example :
    (KeyCalls.pickable 110 110 (KeyCalls.sync (key_row (pos 1) (pos 0)) 110 110 failed_key)).1
    ≡ (key_row_usable (key_row (pos 1) (pos 0)) 110 && KeySync.is_ready failed_key 110)
pickable-sync_example = pickable-sync (key_row (pos 1) (pos 0)) 110 110 failed_key failed_key-Inv

-- Key.Stuck: the key without a database row, -1.
legacy-usable : (now : Time) → key_row_usable (key_row (negsuc 0) (pos 0)) now ≡ true
unfolding key_row_usable
legacy-usable now = refl

platform_failure_stuck_example :
    let j =
      polls
        (wakes 200 200 ∷ picks (key_row (negsuc 0) (pos 0)) 300 300 (legacy-usable 300) ∷ [])
        (KeyCalls.on_platform_failure 100 "403" (new_key (negsuc 0) cooldowns true 0)).0 in
    (KeyCalls.pickable 9000 9000 (KeyCalls.sync (key_row (negsuc 0) (pos 0)) 9000 9000 j)).1 ≡ false
unfolding new_key
platform_failure_stuck_example =
    platform_failure_stuck 100 "403" (new_key (negsuc 0) cooldowns true 0)
      (wakes 200 200 ∷ picks (key_row (negsuc 0) (pos 0)) 300 300 (legacy-usable 300) ∷ [])
      (key_row (negsuc 0) (pos 0)) 9000 9000 refl refl (legacy-usable 9000)

-- Rapi.Invariant: an endpoint that fails twice.
abbrev once_failed : Rapi
once_failed = RapiCalls.on_session_failure 100 "500" 0 false (new_rapi (pos 2) cooldowns true 0)

once_failed-Reach : RapiInvariant.Reach (new_rapi (pos 2) cooldowns true 0) once_failed
once_failed-Reach =
    RapiInvariant.Reach.also RapiInvariant.Reach.here (RapiInvariant.Step.fails 100 "500" 0 false)

pub cooldowns-IsSane : IsSane cooldowns
cooldowns-IsSane = record { some_default = refl; some_max = refl; fits = omega arith }

once_failed-Inv : RapiInvariant.Inv once_failed
once_failed-Inv = new_rapi-Reach-Inv (pos 2) cooldowns true 0 cooldowns-IsSane once_failed-Reach

-- Rapi.Recovery: the cooldown of that endpoint is over at 110.
pickable_lem_example :
    ((RapiCalls.pickable 110 110 once_failed).1 ≡ Recovery.is_ready once_failed 110)
    × ((Recovery.is_ready once_failed 110 ≡ false)
        ⊎ ((RapiCalls.pickable 110 110 once_failed).0.0.state ≡ healthy))
pickable_lem_example = pickable_lem 110 110 once_failed once_failed-Inv

abbrev dead_pool : Rapi
dead_pool = (RapiCalls.on_all_keys_unavailable 130 true "no keys" once_failed).0

dead_pool-invalidated : dead_pool.0.state ≡ invalidated
unfolding RapiCalls.on_all_keys_unavailable RapiCalls.on_session_failure new_rapi fire_rapi
dead_pool-invalidated = refl

invalidated_refused_example :
    (RapiCalls.pickable 900 900 (RapiCalls.on_success 140 dead_pool)).1 ≡ false
invalidated_refused_example =
    invalidated_refused {r = dead_pool} 900 900
      (Recovery.Frozen.also Recovery.Frozen.here (RapiInvariant.Step.succeeds 140) refl)
      dead_pool-invalidated

on_all_keys_unavailable_first_example :
    let (s, first) = RapiCalls.on_all_keys_unavailable 130 true "no keys" once_failed in
    (first ≡ (true && not (eq_state once_failed.0.state invalidated)))
    × (s.1.calls ≡ (
        if first && once_failed.1.has_store
        then set_rapi_unavailable once_failed.1.id false "no keys" ∷ once_failed.1.calls
        else once_failed.1.calls))
on_all_keys_unavailable_first_example =
    on_all_keys_unavailable_first 130 true "no keys" once_failed once_failed-Inv

-- Rapi.Backoff: 10, 20, 40, 80 and then the limit of 120.
session_cooldown_lem_example :
    session_cooldown cooldowns false 5 ≡ pos (min (10 * 2 ^ exponent cooldowns 5) 120)
session_cooldown_lem_example = session_cooldown_lem cooldowns 5 cooldowns-IsSane

-- Platform: up, down, up.
probes-new_platform_example :
    let p = probes ((1, true) ∷ (2, false) ∷ (3, true) ∷ []) (new_platform (pos 4) false true 0) in
    (is_available p ≡ last_probe false ((1, true) ∷ (2, false) ∷ (3, true) ∷ []))
    × (p.1.calls
        ≡ (if true then logged (pos 4) ((1, true) ∷ (2, false) ∷ (3, true) ∷ []) [] else []))
probes-new_platform_example =
    probes-new_platform (pos 4) false true 0 ((1, true) ∷ (2, false) ∷ (3, true) ∷ [])

-- Fsm.Index: two transitions from one state on one event, of which the first has a guard that fails.
abbrev guarded : Bool → State → Transition State Event Payload Bool
guarded b st = record {
  source = healthy;
  event = detect_failure;
  target = st;
  guard = some (λ w ctx. b);
  effect = none;
}

abbrev two_edges : List (Transition State Event Payload Bool)
two_edges = guarded false platform_failed ∷ guarded true unavailable ∷ []

match_locked-scan_example :
    match_locked
      (register_all no_rules two_edges)
      (record { state = healthy; entered_at = 0; wake_at = 0 }, true)
      (record { event = detect_failure; payload = none })
    ≡ scan two_edges
        (record { state = healthy; entered_at = 0; wake_at = 0 }, true)
        (record { event = detect_failure; payload = none })
match_locked-scan_example =
    match_locked-scan two_edges (record { state = healthy; entered_at = 0; wake_at = 0 }, true)
      (record { event = detect_failure; payload = none })
