-- ===== src/Key.antt =====
-- internal/entity/key.go: the state machine of one platform key (credential).
-- A key is its machine together with the fields that the transition effects change. A failed type
-- assertion of a payload would panic: the effect then sets `panicked` and nothing else.
-- `clock` is what time.Now() reads during a call.
pub mod Edges
pub mod Calls
pub mod Invariant
pub mod Sync
pub mod Stuck
pub mod Refusal
use api_gateway.Prelude.{
  ℕ, ◌≡◌, refl, Bool, true, false, not, ◌&&◌, ◌||◌, Option, none, some, List, [], ◌∷◌, String,
  if◌then◌else◌, ℤ, is_positive,
}
use api_gateway.Clock.{Time, Duration, is_zero, after, add}
use api_gateway.Fsm
use api_gateway.Fsm.{Machine, Context, Transition, Rules, register_all, fire, advance, set_timer}
use api_gateway.Entity.{
  State, healthy, cooling, platform_failed, invalidated, permanent_failed, disabled, expired,
  unavailable, Event, success, session_failure, platform_failure, permanent_failure, disable,
  enable, expire, timer_expired, CooldownConfig, StoreCall, mark_key_permanent_failure,
  mark_key_temporary_failure, clear_key_failure, SessionFailurePayload, Payload, session,
  row_reason, PlatformKey, is_permanent, has_expired, eq_state, state_eq, event_eq,
}

pub record KeyData : Type 0 where
  pub id : ℤ
  pub cfg : CooldownConfig
  pub has_store : Bool
  pub reason : String
  pub calls : List StoreCall
  pub panicked : Bool

abbrev pub Key : Type 0
Key = Machine State × KeyData

abbrev pub Effect : Type 0
Effect = Context Event Payload → Time → Key → Key

-- A write that the code makes if `k.store != nil && k.id > 0`.
abbrev pub store_call : StoreCall → KeyData → KeyData
store_call c o = if o.has_store && is_positive o.id then record o { calls = c ∷ o.calls } else o

-- The cooldown of a session failure: billing, timeout or default.
unfoldable pub session_cooldown : CooldownConfig → SessionFailurePayload → Duration
session_cooldown c p =
    if p.is_billing && is_positive c.billing_cooldown
    then c.billing_cooldown
    else if p.is_timeout && is_positive c.timeout_cooldown
    then c.timeout_cooldown
    else c.default_cooldown

unfoldable pub session_until : CooldownConfig → SessionFailurePayload → Time → Time
unfolding session_cooldown
session_until c p now =
    if is_zero p.retry_at || not (after p.retry_at now)
    then add now (session_cooldown c p)
    else p.retry_at

pub on_session_failure : Effect
unfolding session_until set_timer
on_session_failure ctx clock (m, o) = elim ctx.payload [
  | some (session p) ↦ (
    set_timer (session_until o.cfg p clock) m,
    let o' = record o { reason = p.reason } in
        if p.persist_temporary
        then store_call (mark_key_temporary_failure o.id p.reason) o'
        else o',
  )
  | _ ↦ (m, record o { panicked = true })
]

pub on_platform_failure : Effect
on_platform_failure ctx clock (m, o) = elim ctx.payload [
  | some (session p) ↦
      (m, store_call (mark_key_permanent_failure o.id p.reason) (record o { reason = p.reason }))
  | _ ↦ (m, record o { panicked = true })
]

pub on_row_fact : Effect
unfolding set_timer
on_row_fact ctx clock (m, o) = (set_timer 0 m, o)

pub on_enable : Effect
on_enable ctx clock (m, o) = (m, record o { reason = "" })

pub on_success : Effect
unfolding set_timer
on_success ctx clock (m, o) =
    (set_timer 0 m, store_call (clear_key_failure o.id) (record o { reason = "" }))

pub on_timer_expired : Effect
on_timer_expired ctx clock (m, o) = (m, record o { reason = "" })

-- `fsm.Transition{From: a, Event: ev, To: b, Effect: f}`, which has no guard.
abbrev edge : State → Event → State → Effect → Transition State Event Payload KeyData
edge a ev b f = record { source = a; event = ev; target = b; guard = none; effect = some f }

-- The transitions that `register` adds, in its order.
transitions : List (Transition State Event Payload KeyData)
unfolding on_session_failure on_platform_failure on_row_fact on_enable on_success on_timer_expired
transitions =
    edge healthy session_failure cooling on_session_failure
    ∷ edge healthy platform_failure platform_failed on_platform_failure
    ∷ edge healthy disable disabled on_row_fact
    ∷ edge healthy expire expired on_row_fact
    ∷ edge healthy permanent_failure permanent_failed on_row_fact
    ∷ edge healthy success healthy on_success
    ∷ edge cooling session_failure cooling on_session_failure
    ∷ edge cooling platform_failure platform_failed on_platform_failure
    ∷ edge cooling disable disabled on_row_fact
    ∷ edge cooling expire expired on_row_fact
    ∷ edge cooling permanent_failure permanent_failed on_row_fact
    ∷ edge cooling success healthy on_success
    ∷ edge cooling timer_expired healthy on_timer_expired
    ∷ edge platform_failed platform_failure platform_failed on_platform_failure
    ∷ edge platform_failed disable disabled on_row_fact
    ∷ edge platform_failed expire expired on_row_fact
    ∷ edge platform_failed permanent_failure permanent_failed on_row_fact
    ∷ edge platform_failed success healthy on_success
    ∷ edge platform_failed timer_expired healthy on_timer_expired
    ∷ edge permanent_failed success healthy on_success
    ∷ edge permanent_failed enable healthy on_enable
    ∷ edge permanent_failed disable disabled on_row_fact
    ∷ edge permanent_failed expire expired on_row_fact
    ∷ edge disabled enable healthy on_enable
    ∷ edge disabled expire expired on_row_fact
    ∷ edge expired enable healthy on_enable
    ∷ edge expired disable disabled on_row_fact
    ∷ []

unfoldable pub rules : Rules State Event Payload KeyData
unfolding transitions register_all
rules = register_all (record { table = []; index = [] }) transitions

unfoldable pub new_key : ℤ → CooldownConfig → Bool → Time → Key
unfolding Fsm.new
new_key id cfg has_store clock = (
  Fsm.new healthy clock,
  record { id = id; cfg = cfg; has_store = has_store; reason = ""; calls = []; panicked = false },
)

-- `k.machine.Fire(ev, payload)`, and the state that it returns.
unfoldable pub fire_key : Time → Event → Option Payload → Key → Key × State
unfolding fire rules
fire_key clock ev p k = let (k', st, _) = fire rules clock ev p k in (k', st)

unfoldable pub advance_key : Time → Time → Key → Key
unfolding advance rules
advance_key clock now k = (advance timer_expired rules clock now k).0
