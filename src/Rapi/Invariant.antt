-- ===== src/Rapi/Invariant.antt =====
-- What holds of an endpoint (internal/entity/rapi.go) between two calls.
use api_gateway.Prelude.{
  ◌+◌, ◌≡◌, ◌<◌, Bool, true, false, not, Option, none, some, String, if◌then◌else◌, ℤ, arith,
}
use api_gateway.Clock.{Time}
use api_gateway.Fsm.{set_timer}
use api_gateway.Entity.{
  State, healthy, cooling, platform_failed, invalidated, success, session_failure, platform_failure,
  invalidate, revalidate, all_keys_soft, all_keys_hard, timer_expired, Payload, session, all_keys,
  CooldownConfig, SessionFailurePayload, AllKeysPayload,
}
use api_gateway.Rapi.{
  Rapi, fire_rapi, advance_rapi, new_rapi, fail_session, on_session_failure, on_platform_failure,
  on_all_keys_soft, on_all_keys_hard, on_invalidate, on_revalidate, on_success, on_timer_expired,
}
use api_gateway.Rapi.Edges.{follow, fire_rapi_lem, advance_rapi_lem}
use api_gateway.Rapi.Backoff.{IsSane, session_until_later, add-pos}
use api_gateway.Rapi.Calls
use api_gateway.Rapi.Calls.{pickable, align_cooldown_to}

abbrev pub is_rapi_state : State → Bool
is_rapi_state healthy = true
is_rapi_state cooling = true
is_rapi_state platform_failed = true
is_rapi_state invalidated = true
is_rapi_state _ = false

-- An endpoint is in one of its four states; a timer is set in both cooldown states, and none while it
-- is healthy; no payload was of the wrong type.
pub record Inv (r : Rapi) : Type 0 where
  pub known : is_rapi_state r.0.state ≡ true
  pub cooling_timed : r.0.state ≡ cooling → 0 < r.0.wake_at
  pub failed_timed : r.0.state ≡ platform_failed → 0 < r.0.wake_at
  pub healthy_untimed : r.0.state ≡ healthy → r.0.wake_at ≡ 0
  pub sound : r.1.panicked ≡ false
  pub sane : IsSane r.1.cfg

fire_session-Inv :
    (clock : Time) (p : SessionFailurePayload) (r : Rapi)
    → Inv r
    → Inv (fire_rapi clock session_failure (some (session p)) r).0
unfolding follow on_session_failure fail_session set_timer
fire_session-Inv clock p r v = rw (fire_rapi_lem clock session_failure (some (session p)) r) (
    ground (
      arith,
      session_until_later r.1.cfg p
          (if not p.is_timeout then r.1.consecutive_failures + 1 else r.1.consecutive_failures)
          clock v.sane,
    ))

fire_platform-Inv :
    (clock : Time) (p : SessionFailurePayload) (r : Rapi)
    → Inv r
    → Inv (fire_rapi clock platform_failure (some (session p)) r).0
unfolding follow on_platform_failure set_timer
fire_platform-Inv clock p r v =
    rw (fire_rapi_lem clock platform_failure (some (session p)) r)
      (ground (arith, add-pos clock r.1.cfg.max_cooldown v.sane.some_max))

fire_soft-Inv :
    (clock : Time) (p : AllKeysPayload) (r : Rapi)
    → Inv r
    → Inv (fire_rapi clock all_keys_soft (some (all_keys p)) r).0
unfolding follow on_all_keys_soft fail_session set_timer
fire_soft-Inv clock p r v = rw (fire_rapi_lem clock all_keys_soft (some (all_keys p)) r) (
    ground (
      arith,
      session_until_later r.1.cfg
          (record {
            reason = p.reason;
            retry_at = 0;
            is_timeout = false;
            is_billing = false;
            persist_temporary = false;
          })
          (r.1.consecutive_failures + 1) clock v.sane,
    ))

fire_hard-Inv :
    (clock : Time) (p : AllKeysPayload) (r : Rapi)
    → Inv r
    → Inv (fire_rapi clock all_keys_hard (some (all_keys p)) r).0
unfolding follow on_all_keys_hard
fire_hard-Inv clock p r v =
    rw (fire_rapi_lem clock all_keys_hard (some (all_keys p)) r) (ground arith)

fire_success-Inv :
    (clock : Time) (p : Option Payload) (r : Rapi) → Inv r → Inv (fire_rapi clock success p r).0
unfolding follow on_success set_timer
fire_success-Inv clock p r v = rw (fire_rapi_lem clock success p r) (ground arith)

fire_invalidate-Inv :
    (clock : Time) (p : Option Payload) (r : Rapi) → Inv r → Inv (fire_rapi clock invalidate p r).0
unfolding follow on_invalidate set_timer
fire_invalidate-Inv clock p r v = rw (fire_rapi_lem clock invalidate p r) (ground arith)

fire_revalidate-Inv :
    (clock : Time) (p : Option Payload) (r : Rapi) → Inv r → Inv (fire_rapi clock revalidate p r).0
unfolding follow on_revalidate set_timer
fire_revalidate-Inv clock p r v = rw (fire_rapi_lem clock revalidate p r) (ground arith)

pub advance_rapi-Inv : (clock now : Time) (r : Rapi) → Inv r → Inv (advance_rapi clock now r)
unfolding follow on_timer_expired set_timer
advance_rapi-Inv clock now r v =
    rw (advance_rapi_lem clock now r, fire_rapi_lem clock timer_expired none (set_timer 0 r.0, r.1))
      (ground arith)

pub pickable-Inv : (clock now : Time) (r : Rapi) → Inv r → Inv (pickable clock now r).0
unfolding pickable
pickable-Inv clock now r v = ground (arith, advance_rapi-Inv clock now r v)

pub align_cooldown_to-Inv : (at : Time) (r : Rapi) → Inv r → Inv (align_cooldown_to at r)
unfolding align_cooldown_to set_timer
align_cooldown_to-Inv at r v = ground arith

-- One call of an endpoint, with any arguments and any reading of the clock.
pub data Step (r : Rapi) : Rapi → Type 0 where
  succeeds : (clock : Time) → Step r (Calls.on_success clock r)
  fails :
      (clock : Time) (reason : String) (retry_at : Time) (is_timeout : Bool)
      → Step r (Calls.on_session_failure clock reason retry_at is_timeout r)
  fails_on_platform :
      (clock : Time) (reason : String) → Step r (Calls.on_platform_failure clock reason r)
  loses_keys :
      (clock : Time) (hard : Bool) (reason : String)
      → Step r (Calls.on_all_keys_unavailable clock hard reason r).0
  invalidates : (clock : Time) → Step r (Calls.invalidate_rapi clock r)
  revalidates : (clock : Time) → Step r (Calls.revalidate_rapi clock r)
  advances : (clock now : Time) → Step r (advance_rapi clock now r)
  asks : (clock now : Time) → Step r (pickable clock now r).0
  aligns : (at : Time) → Step r (align_cooldown_to at r)

pub data Reach (r : Rapi) : Rapi → Type 0 where
  here : Reach r r
  also : {s t : Rapi} → Reach r s → Step s t → Reach r t

loses_keys-Inv :
    (clock : Time) (hard : Bool) (reason : String) (r : Rapi)
    → Inv r
    → Inv (Calls.on_all_keys_unavailable clock hard reason r).0
unfolding Calls.on_all_keys_unavailable
loses_keys-Inv clock true reason r v = fire_hard-Inv clock _ r v
loses_keys-Inv clock false reason r v = fire_soft-Inv clock _ r v

pub Step-Inv : {r s : Rapi} → Step r s → Inv r → Inv s
unfolding Calls.on_success Calls.on_session_failure Calls.on_platform_failure Calls.invalidate_rapi
    Calls.revalidate_rapi
Step-Inv {r} (succeeds clock) v = fire_success-Inv clock none r v
Step-Inv {r} (fails clock reason retry_at is_timeout) v = fire_session-Inv clock _ r v
Step-Inv {r} (fails_on_platform clock reason) v = fire_platform-Inv clock _ r v
Step-Inv {r} (loses_keys clock hard reason) v = loses_keys-Inv clock hard reason r v
Step-Inv {r} (invalidates clock) v = fire_invalidate-Inv clock none r v
Step-Inv {r} (revalidates clock) v = fire_revalidate-Inv clock none r v
Step-Inv {r} (advances clock now) v = advance_rapi-Inv clock now r v
Step-Inv {r} (asks clock now) v = pickable-Inv clock now r v
Step-Inv {r} (aligns at) v = align_cooldown_to-Inv at r v

Reach-Inv : {r s : Rapi} → Reach r s → Inv r → Inv s
Reach-Inv here v = v
Reach-Inv (also q s) v = Step-Inv s (Reach-Inv q v)

pub new_rapi-Inv :
    (id : ℤ) (cfg : CooldownConfig) (has_store : Bool) (clock : Time)
    → IsSane cfg
    → Inv (new_rapi id cfg has_store clock)
unfolding new_rapi
new_rapi-Inv id cfg has_store clock h = ground arith

pub new_rapi-Reach-Inv :
    (id : ℤ) (cfg : CooldownConfig) (has_store : Bool) (clock : Time) {r : Rapi}
    → IsSane cfg
    → Reach (new_rapi id cfg has_store clock) r
    → Inv r
new_rapi-Reach-Inv id cfg has_store clock h q = Reach-Inv q (new_rapi-Inv id cfg has_store clock h)
