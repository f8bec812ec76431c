-- ===== src/Key/Edges.antt =====
-- The transition diagram of a key (internal/entity/key.go), against the table that it registers.
use api_gateway.Prelude.{◌≡◌, refl, ◌||◌, Option, none, some, if◌then◌else◌, arith}
use api_gateway.Clock.{Time, is_zero, before}
use api_gateway.Fsm.{set_timer}
use api_gateway.Entity.{
  State, healthy, cooling, platform_failed, invalidated, permanent_failed, disabled, expired,
  unavailable, Event, success, session_failure, platform_failure, permanent_failure, disable,
  enable, expire, timer_expired, Payload, state_eq, event_eq,
}
use api_gateway.Key.{
  Key, KeyData, Effect, fire_key, advance_key, on_session_failure, on_platform_failure, on_row_fact,
  on_enable, on_success, on_timer_expired,
}

-- Where an event leads from a state; `none` if the event does nothing there.
abbrev pub next : State → Event → Option State
next healthy session_failure = some cooling
next healthy platform_failure = some platform_failed
next healthy disable = some disabled
next healthy expire = some expired
next healthy permanent_failure = some permanent_failed
next healthy success = some healthy
next cooling session_failure = some cooling
next cooling platform_failure = some platform_failed
next cooling disable = some disabled
next cooling expire = some expired
next cooling permanent_failure = some permanent_failed
next cooling success = some healthy
next cooling timer_expired = some healthy
next platform_failed platform_failure = some platform_failed
next platform_failed disable = some disabled
next platform_failed expire = some expired
next platform_failed permanent_failure = some permanent_failed
next platform_failed success = some healthy
next platform_failed timer_expired = some healthy
next permanent_failed success = some healthy
next permanent_failed enable = some healthy
next permanent_failed disable = some disabled
next permanent_failed expire = some expired
next disabled enable = some healthy
next disabled expire = some expired
next expired enable = some healthy
next expired disable = some disabled
next _ _ = none

-- What an event does to a key that it moves, whatever the state.
unfoldable pub effect : Event → Effect
unfolding on_session_failure on_platform_failure on_row_fact on_enable on_success on_timer_expired
effect session_failure = on_session_failure
effect platform_failure = on_platform_failure
effect enable = on_enable
effect success = on_success
effect timer_expired = on_timer_expired
effect _ = on_row_fact

unfoldable pub follow : Option State → Time → Event → Option Payload → Key → Key × State
unfolding effect
follow none clock ev p (m, o) = ((m, o), m.state)
follow (some t) clock ev p (m, o) = (
  effect ev (record { event = ev; payload = p }) clock
      (record m { state = t; entered_at = clock }, o),
  t,
)

fire_from :
    (st : State) (ev : Event) (clock a w : Time) (p : Option Payload) (o : KeyData)
    → let k : Key = (record { state = st; entered_at = a; wake_at = w }, o) in
      fire_key clock ev p k ≡ follow (next st ev) clock ev p k
unfolding fire_key follow
fire_from healthy success clock a w p o = refl
fire_from healthy _ clock a w p o = refl
fire_from cooling success clock a w p o = refl
fire_from cooling _ clock a w p o = refl
fire_from platform_failed success clock a w p o = refl
fire_from platform_failed _ clock a w p o = refl
fire_from invalidated success clock a w p o = refl
fire_from invalidated _ clock a w p o = refl
fire_from permanent_failed success clock a w p o = refl
fire_from permanent_failed _ clock a w p o = refl
fire_from disabled success clock a w p o = refl
fire_from disabled _ clock a w p o = refl
fire_from expired success clock a w p o = refl
fire_from expired _ clock a w p o = refl
fire_from unavailable success clock a w p o = refl
fire_from unavailable _ clock a w p o = refl

pub fire_key_lem :
    (clock : Time) (ev : Event) (p : Option Payload) (k : Key)
    → fire_key clock ev p k ≡ follow (next k.0.state ev) clock ev p k
fire_key_lem clock ev p (m, o) = fire_from m.state ev clock m.entered_at m.wake_at p o

pub advance_key_lem :
    (clock now : Time) (k : Key)
    → advance_key clock now k ≡ (
        if is_zero k.0.wake_at || before now k.0.wake_at
        then k
        else (fire_key clock timer_expired none (set_timer 0 k.0, k.1)).0)
unfolding advance_key fire_key
advance_key_lem clock now (m, o) = ground arith
