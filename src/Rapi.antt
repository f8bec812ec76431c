-- ===== src/Rapi.antt =====
-- internal/entity/rapi.go: the state machine of one upstream model endpoint.
-- As in Key: the machine together with the fields that the effects change; a failed type assertion
-- of a payload sets `panicked`; `clock` is what time.Now() reads during a call.
-- `consecutive_failures` is a Go int that counts single requests, and is left unbounded.
pub mod Calls
pub mod Edges
pub mod Invariant
pub mod Backoff
pub mod Recovery
pub mod Twice
use api_gateway.Prelude.{
  ℕ, ◌+◌, ◌-◌, Bool, true, false, not, ◌&&◌, ◌||◌, Option, none, some, List, [], ◌∷◌, String,
  if◌then◌else◌, ltb, ltb_ℤ, ℤ, is_positive, shift_left,
}
use api_gateway.Clock.{Time, Duration, is_zero, after, add}
use api_gateway.Fsm
use api_gateway.Fsm.{Machine, Context, Transition, Rules, register_all, fire, advance, set_timer}
use api_gateway.Entity.{
  State, healthy, cooling, platform_failed, invalidated, Event, success, session_failure,
  platform_failure, invalidate, revalidate, all_keys_soft, all_keys_hard, timer_expired,
  CooldownConfig, StoreCall, set_rapi_unavailable, SessionFailurePayload, Payload, session,
  all_keys, state_eq, event_eq,
}

pub record RapiData : Type 0 where
  pub id : ℤ
  pub cfg : CooldownConfig
  pub has_store : Bool
  pub consecutive_failures : ℕ
  pub last_success : Time
  pub last_failure : Time
  pub reason : String
  pub calls : List StoreCall
  pub panicked : Bool

abbrev pub Rapi : Type 0
Rapi = Machine State × RapiData

abbrev pub Effect : Type 0
Effect = Context Event Payload → Time → Rapi → Rapi

abbrev pub min_int : ℕ → ℕ → ℕ
min_int a b = if ltb a b then a else b

-- The exponential backoff before the limit; `failures` counts the failure at hand.
unfoldable pub backoff : CooldownConfig → ℕ → Duration
backoff c failures =
    if c.exponential_backoff && ltb 1 failures
    then shift_left c.default_cooldown (min_int (failures - 1) 6)
    else c.default_cooldown

unfoldable pub session_cooldown : CooldownConfig → Bool → ℕ → Duration
unfolding backoff
session_cooldown c is_timeout failures =
    if is_timeout && is_positive c.timeout_cooldown
    then c.timeout_cooldown
    else let d = backoff c failures in if ltb_ℤ c.max_cooldown d then c.max_cooldown else d

unfoldable pub session_until : CooldownConfig → SessionFailurePayload → ℕ → Time → Time
unfolding session_cooldown
session_until c p failures now =
    if is_zero p.retry_at || not (after p.retry_at now)
    then add now (session_cooldown c p.is_timeout failures)
    else p.retry_at

-- The body of onSessionFailure, once the payload is read.
pub fail_session : SessionFailurePayload → Time → Rapi → Rapi
unfolding session_until set_timer
fail_session p clock (m, o) =
    let n : ℕ = if not p.is_timeout then o.consecutive_failures + 1 else o.consecutive_failures in
    (
      set_timer (session_until o.cfg p n clock) m,
      record o { last_failure = clock; reason = p.reason; consecutive_failures = n },
    )

pub on_session_failure : Effect
unfolding fail_session
on_session_failure ctx clock (m, o) = elim ctx.payload [
  | some (session p) ↦ fail_session p clock (m, o)
  | _ ↦ (m, record o { panicked = true })
]

pub on_platform_failure : Effect
unfolding set_timer
on_platform_failure ctx clock (m, o) = elim ctx.payload [
  | some (session p) ↦ (
    set_timer (add clock o.cfg.max_cooldown) m,
    record o { last_failure = clock; reason = p.reason },
  )
  | _ ↦ (m, record o { panicked = true })
]

pub on_all_keys_soft : Effect
unfolding fail_session set_timer
on_all_keys_soft ctx clock (m, o) = elim ctx.payload [
  | some (all_keys p) ↦
      if not (is_zero p.pool_recover_at)
      then (set_timer p.pool_recover_at m, record o { last_failure = clock; reason = p.reason })
      else fail_session
          (record {
            reason = p.reason;
            retry_at = 0;
            is_timeout = false;
            is_billing = false;
            persist_temporary = false;
          })
          clock (m, o)
  | _ ↦ (m, record o { panicked = true })
]

pub on_all_keys_hard : Effect
on_all_keys_hard ctx clock (m, o) = elim ctx.payload [
  | some (all_keys p) ↦ (
    m,
    let o' = record o { last_failure = clock; reason = p.reason } in
        if o.has_store
        then record o' { calls = set_rapi_unavailable o.id false p.reason ∷ o.calls }
        else o',
  )
  | _ ↦ (m, record o { panicked = true })
]

pub on_invalidate : Effect
unfolding set_timer
on_invalidate ctx clock (m, o) = (set_timer 0 m, o)

pub on_revalidate : Effect
unfolding set_timer
on_revalidate ctx clock (m, o) = (set_timer 0 m, record o { reason = "" })

pub on_success : Effect
unfolding set_timer
on_success ctx clock (m, o) =
    (set_timer 0 m, record o { last_success = clock; consecutive_failures = 0; reason = "" })

pub on_timer_expired : Effect
on_timer_expired ctx clock (m, o) = (m, record o { reason = "" })

abbrev edge : State → Event → State → Effect → Transition State Event Payload RapiData
edge a ev b f = record { source = a; event = ev; target = b; guard = none; effect = some f }

-- The transitions that `register` adds, in its order.
transitions : List (Transition State Event Payload RapiData)
unfolding on_session_failure on_platform_failure on_all_keys_soft on_all_keys_hard on_invalidate
    on_revalidate on_success on_timer_expired
transitions =
    edge healthy session_failure cooling on_session_failure
    ∷ edge healthy platform_failure platform_failed on_platform_failure
    ∷ edge healthy invalidate invalidated on_invalidate
    ∷ edge healthy all_keys_soft cooling on_all_keys_soft
    ∷ edge healthy all_keys_hard invalidated on_all_keys_hard
    ∷ edge healthy success healthy on_success
    ∷ edge cooling session_failure cooling on_session_failure
    ∷ edge cooling platform_failure platform_failed on_platform_failure
    ∷ edge cooling invalidate invalidated on_invalidate
    ∷ edge cooling all_keys_soft cooling on_all_keys_soft
    ∷ edge cooling all_keys_hard invalidated on_all_keys_hard
    ∷ edge cooling success healthy on_success
    ∷ edge cooling timer_expired healthy on_timer_expired
    ∷ edge platform_failed session_failure cooling on_session_failure
    ∷ edge platform_failed invalidate invalidated on_invalidate
    ∷ edge platform_failed all_keys_hard invalidated on_all_keys_hard
    ∷ edge platform_failed success healthy on_success
    ∷ edge platform_failed timer_expired healthy on_timer_expired
    ∷ edge invalidated revalidate healthy on_revalidate
    ∷ []

unfoldable pub rules : Rules State Event Payload RapiData
unfolding transitions register_all
rules = register_all (record { table = []; index = [] }) transitions

unfoldable pub new_rapi : ℤ → CooldownConfig → Bool → Time → Rapi
unfolding Fsm.new
new_rapi id cfg has_store clock = (
  Fsm.new healthy clock,
  record {
    id = id;
    cfg = cfg;
    has_store = has_store;
    consecutive_failures = 0;
    last_success = 0;
    last_failure = 0;
    reason = "";
    calls = [];
    panicked = false;
  },
)

-- `r.machine.Fire(ev, payload)`, with the state that it returns and whether it moved.
unfoldable pub fire_rapi : Time → Event → Option Payload → Rapi → Rapi × State × Bool
unfolding fire rules
fire_rapi clock ev p r = fire rules clock ev p r

unfoldable pub advance_rapi : Time → Time → Rapi → Rapi
unfolding advance rules
advance_rapi clock now r = (advance timer_expired rules clock now r).0
