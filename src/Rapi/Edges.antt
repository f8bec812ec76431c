-- ===== src/Rapi/Edges.antt =====
-- The transition diagram of an endpoint (internal/entity/rapi.go), against the table that it registers.
use api_gateway.Prelude.{
  ◌≡◌, refl, Bool, true, false, ◌||◌, Option, none, some, arith, if◌then◌else◌,
}
use api_gateway.Clock.{Time, is_zero, before}
use api_gateway.Fsm.{set_timer}
use api_gateway.Entity.{
  State, healthy, cooling, platform_failed, invalidated, permanent_failed, disabled, expired,
  unavailable, Event, success, session_failure, platform_failure, invalidate, revalidate,
  all_keys_soft, all_keys_hard, timer_expired, Payload, state_eq, event_eq,
}
use api_gateway.Rapi.{
  Rapi, RapiData, Effect, fire_rapi, advance_rapi, on_session_failure, on_platform_failure,
  on_all_keys_soft, on_all_keys_hard, on_invalidate, on_revalidate, on_success, on_timer_expired,
}

-- Where an event leads from a state; `none` if the event does nothing there.
abbrev pub next : State → Event → Option State
next healthy session_failure = some cooling
next healthy platform_failure = some platform_failed
next healthy invalidate = some invalidated
next healthy all_keys_soft = some cooling
next healthy all_keys_hard = some invalidated
next healthy success = some healthy
next cooling session_failure = some cooling
next cooling platform_failure = some platform_failed
next cooling invalidate = some invalidated
next cooling all_keys_soft = some cooling
next cooling all_keys_hard = some invalidated
next cooling success = some healthy
next cooling timer_expired = some healthy
next platform_failed session_failure = some cooling
next platform_failed invalidate = some invalidated
next platform_failed all_keys_hard = some invalidated
next platform_failed success = some healthy
next platform_failed timer_expired = some healthy
next invalidated revalidate = some healthy
next _ _ = none

-- What an event does to an endpoint that it moves, whatever the state.
unfoldable pub effect : Event → Effect
unfolding on_session_failure on_platform_failure on_all_keys_soft on_all_keys_hard on_invalidate
    on_revalidate on_success on_timer_expired
effect session_failure = on_session_failure
effect platform_failure = on_platform_failure
effect all_keys_soft = on_all_keys_soft
effect all_keys_hard = on_all_keys_hard
effect invalidate = on_invalidate
effect revalidate = on_revalidate
effect success = on_success
effect _ = on_timer_expired

unfoldable pub follow : Option State → Time → Event → Option Payload → Rapi → Rapi × State × Bool
unfolding effect
follow none clock ev p (m, o) = ((m, o), m.state, false)
follow (some t) clock ev p (m, o) = (
  effect ev (record { event = ev; payload = p }) clock
      (record m { state = t; entered_at = clock }, o),
  t,
  true,
)

fire_from :
    (st : State) (ev : Event) (clock a w : Time) (p : Option Payload) (o : RapiData)
    → let r : Rapi = (record { state = st; entered_at = a; wake_at = w }, o) in
      fire_rapi clock ev p r ≡ follow (next st ev) clock ev p r
unfolding fire_rapi follow
fire_from healthy success clock a w p o = refl
fire_from healthy _ clock a w p o = refl
fire_from cooling success clock a w p o = refl
fire_from cooling _ clock a w p o = refl
fire_from platform_failed success clock a w p o = refl
fire_from platform_failed _ clock a w p o = refl
fire_from invalidated success clock a w p o = refl
fire_from invalidated _ clock a w p o = refl
fire_from permanent_failed success clock a w p o = refl
fire_from permanent_failed _ clock a w p o = refl
fire_from disabled success clock a w p o = refl
fire_from disabled _ clock a w p o = refl
fire_from expired success clock a w p o = refl
fire_from expired _ clock a w p o = refl
fire_from unavailable success clock a w p o = refl
fire_from unavailable _ clock a w p o = refl

pub fire_rapi_lem :
    (clock : Time) (ev : Event) (p : Option Payload) (r : Rapi)
    → fire_rapi clock ev p r ≡ follow (next r.0.state ev) clock ev p r
fire_rapi_lem clock ev p (m, o) = fire_from m.state ev clock m.entered_at m.wake_at p o

pub advance_rapi_lem :
    (clock now : Time) (r : Rapi)
    → advance_rapi clock now r ≡ (
        if is_zero r.0.wake_at || before now r.0.wake_at
        then r
        else (fire_rapi clock timer_expired none (set_timer 0 r.0, r.1)).0)
unfolding advance_rapi fire_rapi
advance_rapi_lem clock now (m, o) = ground arith
