-- ===== src/Key/Calls.antt =====
-- internal/entity/key.go: the calls that the scheduler makes of a key.
use api_gateway.Prelude.{Bool, true, false, not, ◌&&◌, ◌||◌, none, some, String, if◌then◌else◌, ℤ}
use api_gateway.Clock.{Time, is_zero, after}
use api_gateway.Fsm.{set_timer}
use api_gateway.Entity.{
  State, healthy, cooling, platform_failed, permanent_failed, disabled, expired, Event, success,
  session_failure, platform_failure, permanent_failure, disable, enable, expire,
  SessionFailurePayload, session, row_reason, PlatformKey, is_permanent, has_expired, eq_state,
}
use api_gateway.Key.{Key, fire_key, advance_key}

abbrev pub is_dead : State → Bool
is_dead disabled = true
is_dead expired = true
is_dead permanent_failed = true
is_dead _ = false

unfoldable pub sync : PlatformKey → Time → Time → Key → Key
sync row clock now k =
    if not row.enabled
    then (fire_key clock disable none k).0
    else if is_permanent row.failure_type
    then (fire_key clock permanent_failure (some (row_reason row.failure_reason)) k).0
    else if has_expired row.expires_at now
    then (fire_key clock expire none k).0
    else if is_dead k.0.state
    then (fire_key clock enable none k).0
    else k

unfoldable pub on_success : Time → Key → Key
on_success clock k = (fire_key clock success none k).0

-- Fires a failure and reports whether the state changed.
unfoldable pub fire_failure : Event → Time → SessionFailurePayload → Key → Key × Bool
fire_failure ev clock p k =
    let (k', st) = fire_key clock ev (some (session p)) k in (k', not (eq_state k.0.state st))

unfoldable pub on_session_failure : Time → String → Time → Bool → Key → Key × Bool
unfolding fire_failure
on_session_failure clock reason retry_at is_timeout = fire_failure session_failure clock (record {
  reason = reason;
  retry_at = retry_at;
  is_timeout = is_timeout;
  is_billing = false;
  persist_temporary = false;
})

unfoldable pub on_temporary_failure : Time → String → Time → Bool → Key → Key × Bool
unfolding fire_failure
on_temporary_failure clock reason retry_at is_timeout = fire_failure session_failure clock (record {
  reason = reason;
  retry_at = retry_at;
  is_timeout = is_timeout;
  is_billing = false;
  persist_temporary = true;
})

unfoldable pub on_platform_failure : Time → String → Key → Key × Bool
unfolding fire_failure
on_platform_failure clock reason = fire_failure platform_failure clock (record {
  reason = reason;
  retry_at = 0;
  is_timeout = false;
  is_billing = false;
  persist_temporary = false;
})

unfoldable pub on_billing_failure : Time → String → Key → Key × Bool
unfolding fire_failure
on_billing_failure clock reason = fire_failure session_failure clock (record {
  reason = reason;
  retry_at = 0;
  is_timeout = false;
  is_billing = true;
  persist_temporary = true;
})

-- The case of a state with a cooldown: the key after it, whether it can serve, when it recovers.
unfoldable pub cooled : Time → Time → Key → Key × Bool × Time
cooled clock now k =
    if after k.0.wake_at now
    then (k, false, k.0.wake_at)
    else let k' = advance_key clock now k in (k', eq_state k'.0.state healthy, 0)

unfoldable pub pickable_in : State → Time → Time → Key → Key × Bool × Time
unfolding cooled
pickable_in healthy clock now k = (k, true, 0)
pickable_in cooling clock now k = cooled clock now k
pickable_in platform_failed clock now k = cooled clock now k
pickable_in _ clock now k = (k, false, 0)

unfoldable pub pickable : Time → Time → Key → Key × Bool × Time
unfolding pickable_in
pickable clock now k = pickable_in k.0.state clock now k

unfoldable pub align_cooldown_to : Time → Key → Key
unfolding set_timer
align_cooldown_to at (m, o) =
    if is_zero at then (m, o) else if eq_state m.state cooling then (set_timer at m, o) else (m, o)

pub record KeySnapshot : Type 0 where
  pub id : ℤ
  pub state : State
  pub cooling_now : Bool
  pub recover_at : Time
  pub reason : String

unfoldable pub snapshot : Time → Key → KeySnapshot
snapshot clock (m, o) = record {
  id = o.id;
  state = m.state;
  cooling_now =
      (eq_state m.state cooling || eq_state m.state platform_failed) && after m.wake_at clock;
  recover_at = m.wake_at;
  reason = o.reason;
}
