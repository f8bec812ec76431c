-- ===== src/Rapi/Calls.antt =====
-- internal/entity/rapi.go: the calls that the scheduler makes of an endpoint.
use api_gateway.Prelude.{ℕ, Bool, true, false, ◌&&◌, ◌||◌, none, some, String, if◌then◌else◌, ℤ}
use api_gateway.Clock.{Time, is_zero, after}
use api_gateway.Fsm.{set_timer}
use api_gateway.Entity.{
  State, healthy, cooling, platform_failed, invalidated, success, session_failure, platform_failure,
  invalidate, revalidate, all_keys_soft, all_keys_hard, session, all_keys, eq_state,
}
use api_gateway.Rapi.{Rapi, fire_rapi, advance_rapi}

unfoldable pub on_success : Time → Rapi → Rapi
on_success clock r = (fire_rapi clock success none r).0

unfoldable pub on_session_failure : Time → String → Time → Bool → Rapi → Rapi
on_session_failure clock reason retry_at is_timeout r =
    (fire_rapi clock session_failure
      (some (
        session (record {
          reason = reason;
          retry_at = retry_at;
          is_timeout = is_timeout;
          is_billing = false;
          persist_temporary = false;
        })))
      r).0

unfoldable pub on_platform_failure : Time → String → Rapi → Rapi
on_platform_failure clock reason r =
    (fire_rapi clock platform_failure
      (some (
        session (record {
          reason = reason;
          retry_at = 0;
          is_timeout = false;
          is_billing = false;
          persist_temporary = false;
        })))
      r).0

-- The endpoint after the event, and whether it has just become invalidated.
unfoldable pub on_all_keys_unavailable : Time → Bool → String → Rapi → Rapi × Bool
on_all_keys_unavailable clock hard reason r =
    let (r', st, changed) =
      fire_rapi clock (if hard then all_keys_hard else all_keys_soft)
        (some (all_keys (record { hard = hard; reason = reason; pool_recover_at = 0 }))) r in
    (r', changed && eq_state st invalidated)

unfoldable pub invalidate_rapi : Time → Rapi → Rapi
invalidate_rapi clock r = (fire_rapi clock invalidate none r).0

unfoldable pub revalidate_rapi : Time → Rapi → Rapi
revalidate_rapi clock r = (fire_rapi clock revalidate none r).0

unfoldable pub align_cooldown_to : Time → Rapi → Rapi
unfolding set_timer
align_cooldown_to at (m, o) =
    if is_zero at then (m, o) else if eq_state m.state cooling then (set_timer at m, o) else (m, o)

-- The default case of `Pickable`.
unfoldable pub cooled : Time → Time → Rapi → Rapi × Bool × Time
cooled clock now r =
    if after r.0.wake_at now
    then (r, false, r.0.wake_at)
    else let r' = advance_rapi clock now r in (r', eq_state r'.0.state healthy, 0)

unfoldable pub pickable_in : State → Time → Time → Rapi → Rapi × Bool × Time
unfolding cooled
pickable_in healthy clock now r = (r, true, 0)
pickable_in invalidated clock now r = (r, false, 0)
pickable_in _ clock now r = cooled clock now r

-- The endpoint after the call, whether it can serve now, and when it may recover.
unfoldable pub pickable : Time → Time → Rapi → Rapi × Bool × Time
unfolding pickable_in
pickable clock now r = pickable_in r.0.state clock now r

pub record RapiSnapshot : Type 0 where
  pub id : ℤ
  pub state : State
  pub cooling_now : Bool
  pub recover_at : Time
  pub reason : String
  pub consecutive_failures : ℕ
  pub last_success : Time
  pub last_failure : Time
  pub is_invalidated : Bool

unfoldable pub snapshot : Time → Rapi → RapiSnapshot
snapshot clock (m, o) = record {
  id = o.id;
  state = m.state;
  cooling_now =
      (eq_state m.state cooling || eq_state m.state platform_failed) && after m.wake_at clock;
  recover_at = m.wake_at;
  reason = o.reason;
  consecutive_failures = o.consecutive_failures;
  last_success = o.last_success;
  last_failure = o.last_failure;
  is_invalidated = eq_state m.state invalidated;
}
