-- ===== src/Key/Invariant.antt =====
-- What holds of a key (internal/entity/key.go) between two calls.
use api_gateway.Prelude.{
  ◌≡◌, ◌<◌, Bool, true, false, Option, none, some, String, ℤ, arith, is_positive,
}
use api_gateway.Clock.{Time}
use api_gateway.Fsm.{set_timer}
use api_gateway.Entity.{
  State, healthy, cooling, platform_failed, invalidated, unavailable, success, session_failure,
  platform_failure, permanent_failure, disable, enable, expire, timer_expired, Payload, session,
  CooldownConfig, SessionFailurePayload, PlatformKey,
}
use api_gateway.Key.{
  Key, fire_key, advance_key, session_cooldown, session_until, new_key, on_session_failure,
  on_platform_failure, on_row_fact, on_enable, on_success, on_timer_expired,
}
use api_gateway.Key.Edges.{follow, fire_key_lem, advance_key_lem}
use api_gateway.Key.Calls
use api_gateway.Key.Calls.{is_dead, sync, pickable, align_cooldown_to}

abbrev pub is_key_state : State → Bool
is_key_state invalidated = false
is_key_state unavailable = false
is_key_state _ = true

-- A key is in one of its six states; a timer is set while it cools, and none is set while it is
-- healthy or dead; no payload was of the wrong type.
pub record Inv (k : Key) : Type 0 where
  pub known : is_key_state k.0.state ≡ true
  pub cooling_timed : k.0.state ≡ cooling → 0 < k.0.wake_at
  pub healthy_untimed : k.0.state ≡ healthy → k.0.wake_at ≡ 0
  pub dead_untimed : is_dead k.0.state ≡ true → k.0.wake_at ≡ 0
  pub sound : k.1.panicked ≡ false
  pub cooled : is_positive k.1.cfg.default_cooldown ≡ true

pub session_until-pos :
    (c : CooldownConfig) (p : SessionFailurePayload) (now : Time)
    → is_positive c.default_cooldown ≡ true
    → 0 < session_until c p now
unfolding session_until session_cooldown
session_until-pos c p now h = ground arith

pub fire_failed-Inv :
    (clock : Time) (p : SessionFailurePayload) (k : Key)
    → Inv k
    → Inv (fire_key clock session_failure (some (session p)) k).0
unfolding follow on_session_failure set_timer
fire_failed-Inv clock p k v =
    rw (fire_key_lem clock session_failure (some (session p)) k)
      (ground (arith, session_until-pos k.1.cfg p clock))

pub fire_platform-Inv :
    (clock : Time) (p : SessionFailurePayload) (k : Key)
    → Inv k
    → Inv (fire_key clock platform_failure (some (session p)) k).0
unfolding follow on_platform_failure
fire_platform-Inv clock p k v =
    rw (fire_key_lem clock platform_failure (some (session p)) k) (ground (arith))

fire_success-Inv :
    (clock : Time) (p : Option Payload) (k : Key) → Inv k → Inv (fire_key clock success p k).0
unfolding follow on_success set_timer
fire_success-Inv clock p k v = rw (fire_key_lem clock success p k) (ground (arith))

fire_disable-Inv :
    (clock : Time) (p : Option Payload) (k : Key) → Inv k → Inv (fire_key clock disable p k).0
unfolding follow on_row_fact set_timer
fire_disable-Inv clock p k v = rw (fire_key_lem clock disable p k) (ground (arith))

fire_expire-Inv :
    (clock : Time) (p : Option Payload) (k : Key) → Inv k → Inv (fire_key clock expire p k).0
unfolding follow on_row_fact set_timer
fire_expire-Inv clock p k v = rw (fire_key_lem clock expire p k) (ground (arith))

fire_permanent-Inv :
    (clock : Time) (p : Option Payload) (k : Key)
    → Inv k
    → Inv (fire_key clock permanent_failure p k).0
unfolding follow on_row_fact set_timer
fire_permanent-Inv clock p k v = rw (fire_key_lem clock permanent_failure p k) (ground (arith))

fire_enable-Inv :
    (clock : Time) (p : Option Payload) (k : Key) → Inv k → Inv (fire_key clock enable p k).0
unfolding follow on_enable
fire_enable-Inv clock p k v = rw (fire_key_lem clock enable p k) (ground (arith))

pub advance_key-Inv : (clock now : Time) (k : Key) → Inv k → Inv (advance_key clock now k)
unfolding follow on_timer_expired set_timer
advance_key-Inv clock now k v =
    rw (advance_key_lem clock now k, fire_key_lem clock timer_expired none (set_timer 0 k.0, k.1))
      (ground (arith))

pub sync-Inv : (row : PlatformKey) (clock now : Time) (k : Key) → Inv k → Inv (sync row clock now k)
unfolding sync
sync-Inv row clock now k v = ground (
  arith,
  fire_disable-Inv clock none k v,
  fire_permanent-Inv clock (some (Payload.row_reason row.failure_reason)) k v,
  fire_expire-Inv clock none k v,
  fire_enable-Inv clock none k v,
)

cooled-Inv : (clock now : Time) (k : Key) → Inv k → Inv (Calls.cooled clock now k).0
unfolding Calls.cooled
cooled-Inv clock now k v = ground (arith, advance_key-Inv clock now k v)

pickable_in-Inv :
    (st : State) (clock now : Time) (k : Key) → Inv k → Inv (Calls.pickable_in st clock now k).0
unfolding Calls.pickable_in
pickable_in-Inv healthy clock now k v = v
pickable_in-Inv cooling clock now k v = cooled-Inv clock now k v
pickable_in-Inv platform_failed clock now k v = cooled-Inv clock now k v
pickable_in-Inv _ clock now k v = v

pub pickable-Inv : (clock now : Time) (k : Key) → Inv k → Inv (pickable clock now k).0
unfolding pickable
pickable-Inv clock now k v = pickable_in-Inv k.0.state clock now k v

pub align_cooldown_to-Inv : (at : Time) (k : Key) → Inv k → Inv (align_cooldown_to at k)
unfolding align_cooldown_to set_timer
align_cooldown_to-Inv at k v = ground arith

-- One call of a key, with any arguments and any reading of the clock.
pub data Step (k : Key) : Key → Type 0 where
  syncs : (row : PlatformKey) (clock now : Time) → Step k (sync row clock now k)
  succeeds : (clock : Time) → Step k (Calls.on_success clock k)
  fails :
      (clock : Time) (reason : String) (retry_at : Time) (is_timeout : Bool)
      → Step k (Calls.on_session_failure clock reason retry_at is_timeout k).0
  fails_for_now :
      (clock : Time) (reason : String) (retry_at : Time) (is_timeout : Bool)
      → Step k (Calls.on_temporary_failure clock reason retry_at is_timeout k).0
  fails_on_platform :
      (clock : Time) (reason : String) → Step k (Calls.on_platform_failure clock reason k).0
  fails_to_pay :
      (clock : Time) (reason : String) → Step k (Calls.on_billing_failure clock reason k).0
  advances : (clock now : Time) → Step k (advance_key clock now k)
  asks : (clock now : Time) → Step k (pickable clock now k).0
  aligns : (at : Time) → Step k (align_cooldown_to at k)

pub data Reach (k : Key) : Key → Type 0 where
  here : Reach k k
  also : {j i : Key} → Reach k j → Step j i → Reach k i

pub Step-Inv : {k j : Key} → Step k j → Inv k → Inv j
unfolding Calls.on_success Calls.on_session_failure Calls.on_temporary_failure
    Calls.on_platform_failure Calls.on_billing_failure
Step-Inv {k} (syncs row clock now) v = sync-Inv row clock now k v
Step-Inv {k} (succeeds clock) v = fire_success-Inv clock none k v
Step-Inv {k} (fails clock reason retry_at is_timeout) v = fire_failed-Inv clock _ k v
Step-Inv {k} (fails_for_now clock reason retry_at is_timeout) v = fire_failed-Inv clock _ k v
Step-Inv {k} (fails_on_platform clock reason) v = fire_platform-Inv clock _ k v
Step-Inv {k} (fails_to_pay clock reason) v = fire_failed-Inv clock _ k v
Step-Inv {k} (advances clock now) v = advance_key-Inv clock now k v
Step-Inv {k} (asks clock now) v = pickable-Inv clock now k v
Step-Inv {k} (aligns at) v = align_cooldown_to-Inv at k v

Reach-Inv : {k j : Key} → Reach k j → Inv k → Inv j
Reach-Inv here v = v
Reach-Inv (also r s) v = Step-Inv s (Reach-Inv r v)

pub new_key-Inv :
    (id : ℤ) (cfg : CooldownConfig) (has_store : Bool) (clock : Time)
    → is_positive cfg.default_cooldown ≡ true
    → Inv (new_key id cfg has_store clock)
unfolding new_key
new_key-Inv id cfg has_store clock h = ground arith

-- Whatever calls have been made of a new key whose default cooldown is positive: it is in one of its
-- six states, a cooling key has a timer, a healthy, disabled, expired or permanently failed key has
-- none, and no effect met a payload of a wrong type.
pub new_key-Reach-Inv :
    (id : ℤ) (cfg : CooldownConfig) (has_store : Bool) (clock : Time) {k : Key}
    → is_positive cfg.default_cooldown ≡ true
    → Reach (new_key id cfg has_store clock) k
    → Inv k
new_key-Reach-Inv id cfg has_store clock h r = Reach-Inv r (new_key-Inv id cfg has_store clock h)
