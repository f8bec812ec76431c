-- ===== src/Entity.antt =====
-- internal/entity/entity.go: the states, events and payloads of the gateway's entities, the
-- classification of upstream failures, and the predicates on credential rows.
-- `Store` calls are recorded as values, newest first; their errors are ignored by the code.
pub mod Rows
pub mod Bodies
use api_gateway.Prelude.{
  ℕ, ◌≡◌, ◌↔◌, Bool, true, false, not, ◌&&◌, ◌||◌, Option, none, some, List, [], ◌∷◌, String, arith,
  ltb, ◌==◌, if◌then◌else◌, Eq, ℤ, pos,
}
use text.Mathlib.Text.{◌==◌ as str_eq}
use api_gateway.Clock.{Time, Duration, is_zero, after}

pub data State : Type 0 where
  healthy cooling platform_failed invalidated permanent_failed disabled expired unavailable : State

-- `timer_expired` is the reserved event of the fsm package.
pub data Event : Type 0 where
  success session_failure platform_failure permanent_failure invalidate revalidate : Event
  all_keys_soft all_keys_hard disable enable expire detect_success detect_failure : Event
  timer_expired : Event

abbrev pub eq_state : State → State → Bool
eq_state healthy healthy = true
eq_state cooling cooling = true
eq_state platform_failed platform_failed = true
eq_state invalidated invalidated = true
eq_state permanent_failed permanent_failed = true
eq_state disabled disabled = true
eq_state expired expired = true
eq_state unavailable unavailable = true
eq_state _ _ = false

abbrev pub eq_event : Event → Event → Bool
eq_event success success = true
eq_event session_failure session_failure = true
eq_event platform_failure platform_failure = true
eq_event permanent_failure permanent_failure = true
eq_event invalidate invalidate = true
eq_event revalidate revalidate = true
eq_event all_keys_soft all_keys_soft = true
eq_event all_keys_hard all_keys_hard = true
eq_event disable disable = true
eq_event enable enable = true
eq_event expire expire = true
eq_event detect_success detect_success = true
eq_event detect_failure detect_failure = true
eq_event timer_expired timer_expired = true
eq_event _ _ = false

pub eq_state_iff : (a b : State) → (eq_state a b ≡ true) ↔ (a ≡ b)
eq_state_iff a b = ground arith

pub eq_event_iff : (a b : Event) → (eq_event a b ≡ true) ↔ (a ≡ b)
eq_event_iff a b = ground arith

instance abbrev pub state_eq : Eq State
state_eq = record { beq = eq_state; beq_iff = eq_state_iff }

instance abbrev pub event_eq : Eq Event
event_eq = record { beq = eq_event; beq_iff = eq_event_iff }

pub data FailureScope : Type 0 where
  session_scope system_scope platform_scope : FailureScope

unfoldable pub classify_failure : ℕ → FailureScope
classify_failure code =
    if code == 401
    then system_scope
    else if code == 402 || code == 403 || code == 409 || code == 423 || code == 451
    then platform_scope
    else session_scope

pub record CooldownConfig : Type 0 where
  pub default_cooldown : Duration
  pub timeout_cooldown : Duration
  pub max_cooldown : Duration
  pub exponential_backoff : Bool
  pub billing_cooldown : Duration

-- A call of the `Store` interface.
pub data StoreCall : Type 0 where
  set_platform_available : ℤ → Bool → StoreCall
  set_rapi_unavailable : ℤ → Bool → String → StoreCall
  mark_key_permanent_failure : ℤ → String → StoreCall
  mark_key_temporary_failure : ℤ → String → StoreCall
  clear_key_failure : ℤ → StoreCall

pub record SessionFailurePayload : Type 0 where
  pub reason : String
  pub retry_at : Time
  pub is_timeout : Bool
  pub is_billing : Bool
  pub persist_temporary : Bool

pub record AllKeysPayload : Type 0 where
  pub hard : Bool
  pub reason : String
  pub pool_recover_at : Time

-- The types of value that the entities pass as the payload `any`.
pub data Payload : Type 0 where
  session : SessionFailurePayload → Payload
  all_keys : AllKeysPayload → Payload
  row_reason : String → Payload

-- models.PlatformKey, with the fields that scheduling and forwarding read. `expires_at` is a nullable pointer.
pub record PlatformKey : Type 0 where
  pub id : ℤ
  pub platform_id : ℤ
  pub key_index : ℤ
  pub token : String
  pub label : String
  pub enabled : Bool
  pub failure_type : ℤ
  pub failure_reason : String
  pub expires_at : Option Time

-- `k.ExpiresAt != nil && !k.ExpiresAt.IsZero() && now.After(*k.ExpiresAt)`.
abbrev pub has_expired : Option Time → Time → Bool
has_expired none now = false
has_expired (some at) now = not (is_zero at) && after now at

abbrev pub is_permanent : ℤ → Bool
is_permanent (pos n) = n == 2
is_permanent _ = false

unfoldable pub key_row_usable : PlatformKey → Time → Bool
key_row_usable k now =
    if not k.enabled || is_permanent k.failure_type
    then false
    else if has_expired k.expires_at now
    then false
    else true

-- The reason that one unusable row contributes, where none has been found yet.
abbrev pub default_reason : String → String → String
default_reason reason other = if str_eq reason "" then other else reason

unfoldable pub row_failure_reason : PlatformKey → Time → String
row_failure_reason k now =
    if not k.enabled
    then "Key 已禁用"
    else if is_permanent k.failure_type
    then default_reason k.failure_reason "Key 永久失效 (401/402/403)"
    else if has_expired k.expires_at now
    then "Key 已过期"
    else ""

-- The loop of KeysHardDead, with the reason found so far.
unfoldable pub hard_dead_from : String → Time → List PlatformKey → Bool × String
unfolding key_row_usable row_failure_reason
hard_dead_from reason now [] = (true, reason)
hard_dead_from reason now (k ∷ ks) =
    let rest = hard_dead_from (default_reason reason (row_failure_reason k now)) now ks in
    if key_row_usable k now then (false, "") else rest

unfoldable pub keys_hard_dead : List PlatformKey → Time → Bool × String
unfolding hard_dead_from
keys_hard_dead [] now = (false, "")
keys_hard_dead (k ∷ ks) now = hard_dead_from "" now (k ∷ ks)
