-- ===== src/Key/Refusal.antt =====
-- internal/entity/key.go: the readiness of a key that is refused or has just failed.
use api_gateway.Prelude.{◌≡◌, ◌<◌, true, false, ◌&&◌, some, arith, is_positive}
use api_gateway.Clock.{Time, Duration, add}
use api_gateway.Fsm.{set_timer}
use api_gateway.Entity.{
  healthy, CooldownConfig, SessionFailurePayload, session, session_failure, platform_failure,
  PlatformKey, key_row_usable,
}
use api_gateway.Key.{
  Key, fire_key, session_until, session_cooldown, on_session_failure, on_platform_failure,
}
use api_gateway.Key.Edges.{follow, fire_key_lem, advance_key_lem}
use api_gateway.Key.Calls
use api_gateway.Key.Calls.{sync, pickable}
use api_gateway.Key.Invariant.{Inv}
use api_gateway.Key.Sync.{is_ready}

add-later : (now : Time) (d : Duration) → is_positive d ≡ true → now < add now d
add-later now d h = ground arith

later_of_session :
    (c : CooldownConfig) (p : SessionFailurePayload) (now : Time)
    → is_positive c.default_cooldown ≡ true
    → now < session_until c p now
unfolding session_until session_cooldown
later_of_session c p now h = ground arith

-- After a failure of a session a healthy key is not ready at that time.
pub session_failure_unready :
    (now : Time) (p : SessionFailurePayload) (k : Key)
    → Inv k
    → k.0.state ≡ healthy
    → is_ready (fire_key now session_failure (some (session p)) k).0 now ≡ false
unfolding is_ready follow on_session_failure set_timer
session_failure_unready now p k v h =
    rw (fire_key_lem now session_failure (some (session p)) k)
      (ground (arith, later_of_session k.1.cfg p now v.cooled))

pub platform_failure_unready :
    (now : Time) (p : SessionFailurePayload) (k : Key)
    → Inv k
    → k.0.state ≡ healthy
    → is_ready (fire_key now platform_failure (some (session p)) k).0 now ≡ false
unfolding is_ready follow on_platform_failure set_timer
platform_failure_unready now p k v h =
    rw (fire_key_lem now platform_failure (some (session p)) k) (ground (arith, v.healthy_untimed))

-- What `Pickable` refuses after `Sync` does not serve afterwards either.
pub refused_unready :
    (row : PlatformKey) (now : Time) (k : Key)
    → Inv k
    → (key_row_usable row now && is_ready k now) ≡ false
    → (key_row_usable row now && is_ready (pickable now now (sync row now now k)).0 now) ≡ false
unfolding is_ready pickable Calls.pickable_in Calls.cooled sync key_row_usable
refused_unready row now k v h = ground (arith, advance_key_lem now now k)
