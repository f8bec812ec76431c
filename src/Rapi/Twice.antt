-- ===== src/Rapi/Twice.antt =====
-- internal/entity/rapi.go: an endpoint whose keys are lost twice, with the cooldown aligned in between.
use api_gateway.Prelude.{◌+◌, ◌≡◌, true, false, ◌||◌, some, String, arith}
use api_gateway.Clock.{Time, add}
use api_gateway.Fsm.{set_timer}
use api_gateway.Entity.{healthy, cooling, all_keys_soft, all_keys, eq_state}
use api_gateway.Rapi.{Rapi, session_until, session_cooldown, on_all_keys_soft, fail_session}
use api_gateway.Rapi.Calls as RapiCalls
use api_gateway.Rapi.Edges.{follow, fire_rapi_lem}

-- The loss of all keys for now, of an endpoint that is healthy or cooling.
pub soft_loss :
    (clock : Time) (reason : String) (r : Rapi)
    → (eq_state r.0.state healthy || eq_state r.0.state cooling) ≡ true
    → let s = (RapiCalls.on_all_keys_unavailable clock false reason r).0 in
      (s.0.state ≡ cooling)
      × (s.0.wake_at ≡ add clock (session_cooldown r.1.cfg false (r.1.consecutive_failures + 1)))
      × (s.1.consecutive_failures ≡ r.1.consecutive_failures + 1)
      × (s.1.cfg ≡ r.1.cfg)
unfolding RapiCalls.on_all_keys_unavailable follow on_all_keys_soft fail_session set_timer
    session_until
soft_loss clock reason r h = ground (
  arith,
  h,
  fire_rapi_lem clock all_keys_soft
      (some (all_keys (record { hard = false; reason = reason; pool_recover_at = 0 }))) r,
)
