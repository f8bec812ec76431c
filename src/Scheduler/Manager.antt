-- ===== src/Scheduler/Manager.antt =====
-- internal/scheduler/scheduler.go: the configuration and the state of the Manager, and the calls that
-- pass a failure or a success on to one entity. Each method holds the manager's lock, so it is one
-- function of the state; `clock` is what time.Now() reads inside an entity. Broadcasts are not part of
-- the state.
pub mod Settings
use text.Mathlib.Text.{◌==◌ as str_eq}
use api_gateway.Prelude.{
  ℕ, suc, ◌+◌, ◌-◌, ◌*◌, ◌/◌, Bool, true, false, not, ◌&&◌, Option, none, some, List, [], ◌∷◌,
  String, if◌then◌else◌, ◌==◌, ℤ, pos, negsuc, pos_part, ltb_ℤ, is_positive, of_bits, get, put,
  delete, int_eq,
}
use api_gateway.Clock.{Time, Duration, second}
use api_gateway.Host.{Host}
use api_gateway.Entity.{CooldownConfig}
use api_gateway.Key.{Key, new_key}
use api_gateway.Key.Calls as KeyCalls
use api_gateway.Rapi.{Rapi, new_rapi}
use api_gateway.Rapi.Calls as RapiCalls
use api_gateway.Platform.{Platform, new_platform}
use api_gateway.Scheduler.Counters.{RapiCounters, no_counters, count_request}
use api_gateway.Scheduler.Cursor.{Cursors}

pub record Config : Type 0 where
  pub default_cooldown : Duration
  pub timeout_cooldown : Duration
  pub max_cooldown : Duration
  pub exponential_backoff : Bool
  pub billing_cooldown : Duration
  pub capability_block : Duration
  pub queue_max_len : ℤ
  pub request_max_wait : Duration
  pub key_cursor_scope : String

unfoldable pub default_config : Config
default_config = record {
  default_cooldown = pos (10 * second);
  timeout_cooldown = pos (5 * second);
  max_cooldown = pos (120 * second);
  exponential_backoff = true;
  billing_cooldown = pos (1800 * second);
  capability_block = pos (86400 * second);
  queue_max_len = pos 1024;
  request_max_wait = pos (120 * second);
  key_cursor_scope = "session";
}

-- `time.Duration(sec) * time.Second` for a positive number of seconds.
abbrev pub seconds : ℤ → Duration
seconds s = of_bits (pos_part s * second)

-- `d / 2`, towards zero.
abbrev pub half : Duration → Duration
half (pos n) = pos (n / 2)
half (negsuc n) = if n == 0 then pos 0 else negsuc ((n + 1) / 2 - 1)

abbrev pub at_least_second : Duration → Duration
at_least_second d = if ltb_ℤ d (pos second) then pos second else d

abbrev pub seconds_or : ℤ → Duration → Duration
seconds_or s d = if is_positive s then seconds s else d

unfoldable pub config_from_app_config : ℤ → ℤ → ℤ → ℤ → ℤ → String → Config
unfolding default_config
config_from_app_config cooldown_sec max_cooldown_sec request_max_wait_sec billing_cooldown_sec
      capability_block_sec scope =
    let cfg = default_config in
    record cfg {
      default_cooldown = seconds_or cooldown_sec cfg.default_cooldown;
      timeout_cooldown =
          if is_positive cooldown_sec
          then at_least_second (half (seconds cooldown_sec))
          else cfg.timeout_cooldown;
      max_cooldown = seconds_or max_cooldown_sec cfg.max_cooldown;
      billing_cooldown = seconds_or billing_cooldown_sec cfg.billing_cooldown;
      capability_block = seconds_or capability_block_sec cfg.capability_block;
      request_max_wait = seconds_or request_max_wait_sec cfg.request_max_wait;
      key_cursor_scope = if str_eq scope "platform" then "platform" else "session";
    }

pub record WaitQueue : Type 0 where
  pub count : ℕ
  pub generation : ℕ

pub record Manager : Type 0 where
  pub cfg : Config
  pub ecfg : CooldownConfig
  pub has_store : Bool
  pub rapis : List (ℤ × Rapi)
  pub keys : List (ℤ × Key)
  pub platforms : List (ℤ × Platform)
  pub queues : List (ℤ × WaitQueue)
  pub counters : List (ℤ × RapiCounters)
  pub key_cursors : Cursors

-- The defaults that NewManager puts in.
unfoldable pub normalised : Config → Config
unfolding default_config
normalised cfg = record cfg {
  default_cooldown =
      if is_positive cfg.default_cooldown
      then cfg.default_cooldown
      else default_config.default_cooldown;
  max_cooldown =
      if is_positive cfg.max_cooldown then cfg.max_cooldown else default_config.max_cooldown;
  queue_max_len =
      if is_positive cfg.queue_max_len then cfg.queue_max_len else default_config.queue_max_len;
  key_cursor_scope =
      if str_eq cfg.key_cursor_scope ""
      then default_config.key_cursor_scope
      else cfg.key_cursor_scope;
}

abbrev pub entity_config : Config → CooldownConfig
entity_config cfg = record {
  default_cooldown = cfg.default_cooldown;
  timeout_cooldown = cfg.timeout_cooldown;
  max_cooldown = cfg.max_cooldown;
  exponential_backoff = cfg.exponential_backoff;
  billing_cooldown = cfg.billing_cooldown;
}

unfoldable pub new_manager : Config → Bool → Manager
unfolding normalised
new_manager cfg has_store = record {
  cfg = normalised cfg;
  ecfg = entity_config (normalised cfg);
  has_store = has_store;
  rapis = [];
  keys = [];
  platforms = [];
  queues = [];
  counters = [];
  key_cursors = [];
}

abbrev pub or_new {ℓ} : {A : Type ℓ} → A → Option A → A
or_new a none = a
or_new a (some b) = b

-- The entity of an id, made if it is missing; storing it is part of each call below.
unfoldable pub rapi_of : Manager → Time → ℤ → Rapi
rapi_of m clock id = or_new (new_rapi id m.ecfg m.has_store clock) (get id m.rapis)

unfoldable pub key_of : Manager → Time → ℤ → Key
key_of m clock id = or_new (new_key id m.ecfg m.has_store clock) (get id m.keys)

abbrev pub set_rapi : ℤ → Rapi → Manager → Manager
set_rapi id r m = record m { rapis = put id r m.rapis }

abbrev pub set_key : ℤ → Key → Manager → Manager
set_key id k m = record m { keys = put id k m.keys }

-- Reading missing counters gives empty ones; that the code stores those is left out.
-- The counters of an endpoint, empty if there are none; storing them is part of each call.
unfoldable pub counters_of : Manager → ℤ → RapiCounters
counters_of m id = or_new no_counters (get id m.counters)

unfoldable pub record_request : Host → Time → ℤ → ℕ → Manager → Manager
unfolding counters_of
record_request host now id tokens m = record m {
  counters = put id (count_request host now tokens (counters_of m id)) m.counters;
}

-- The platform's entity, made with the stored availability if it is missing.
unfoldable pub platform_entity : Time → ℤ → Bool → Manager → Platform × Manager
platform_entity clock id available m =
    let p = or_new (new_platform id available m.has_store clock) (get id m.platforms) in
    (p, record m { platforms = put id p m.platforms })

unfoldable pub invalidate_rapi : Time → ℤ → Manager → Manager
unfolding rapi_of
invalidate_rapi clock id m = set_rapi id (RapiCalls.invalidate_rapi clock (rapi_of m clock id)) m

unfoldable pub revalidate_rapi : Time → ℤ → Manager → Manager
unfolding rapi_of
revalidate_rapi clock id m = set_rapi id (RapiCalls.revalidate_rapi clock (rapi_of m clock id)) m

unfoldable pub mark_all_keys_unavailable : Time → ℤ → Bool → String → Manager → Manager × Bool
unfolding rapi_of
mark_all_keys_unavailable clock id hard reason m =
    let (r, first) = RapiCalls.on_all_keys_unavailable clock hard reason (rapi_of m clock id) in
    (set_rapi id r m, first)

-- An endpoint that has no entity yet is left alone.
unfoldable pub mark_success : Time → ℤ → Manager → Manager
mark_success clock id m = elim (get id m.rapis) [
  | none ↦ m
  | some r ↦ set_rapi id (RapiCalls.on_success clock r) m
]

unfoldable pub mark_failure : Time → ℤ → Time → String → Bool → Manager → Manager × Time
unfolding rapi_of
mark_failure clock id retry_at reason is_timeout m =
    let r = RapiCalls.on_session_failure clock reason retry_at is_timeout (rapi_of m clock id) in
    (set_rapi id r m, r.0.wake_at)

unfoldable pub mark_platform_failure : Time → ℤ → String → Manager → Manager × Time
unfolding rapi_of
mark_platform_failure clock id reason m =
    let r = RapiCalls.on_platform_failure clock reason (rapi_of m clock id) in
    (set_rapi id r m, r.0.wake_at)

-- What a failure of a key gives back: the manager, the recovery time and whether the state changed.
abbrev pub failed_key : ℤ → Key × Bool → Manager → Manager × Time × Bool
failed_key id (k, changed) m = (set_key id k m, k.0.wake_at, changed)

unfoldable pub mark_key_failure : Time → ℤ → Time → String → Bool → Manager → Manager × Time × Bool
unfolding key_of
mark_key_failure clock id retry_at reason is_timeout m =
    failed_key id (KeyCalls.on_session_failure clock reason retry_at is_timeout (key_of m clock id))
      m

unfoldable pub mark_key_temporary_failure :
    Time → ℤ → Time → String → Bool → Manager → Manager × Time × Bool
unfolding key_of
mark_key_temporary_failure clock id retry_at reason is_timeout m =
    failed_key id
      (KeyCalls.on_temporary_failure clock reason retry_at is_timeout (key_of m clock id)) m

unfoldable pub mark_key_billing_failure : Time → ℤ → String → Manager → Manager × Time × Bool
unfolding key_of
mark_key_billing_failure clock id reason m =
    failed_key id (KeyCalls.on_billing_failure clock reason (key_of m clock id)) m

unfoldable pub mark_key_platform_failure : Time → ℤ → String → Manager → Manager × Time × Bool
unfolding key_of
mark_key_platform_failure clock id reason m =
    failed_key id (KeyCalls.on_platform_failure clock reason (key_of m clock id)) m

unfoldable pub mark_key_success : Time → ℤ → Manager → Manager
unfolding key_of
mark_key_success clock id m = set_key id (KeyCalls.on_success clock (key_of m clock id)) m

unfoldable pub remove_key : ℤ → Manager → Manager
remove_key id m = record m { keys = delete id m.keys }
