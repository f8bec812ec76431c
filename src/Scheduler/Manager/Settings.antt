-- ===== src/Scheduler/Manager/Settings.antt =====
-- internal/scheduler/scheduler.go: the cooldowns that a configured manager gives its entities.
use api_gateway.Prelude.{
  ◌*◌, ◌≡◌, ◌<◌, ◌≤◌, Bool, true, String, arith, ℤ, pos, pos_part, is_positive,
}
use api_gateway.Clock.{second}
use api_gateway.Rapi.Backoff.{IsSane}
use api_gateway.Scheduler.Manager.{Manager, config_from_app_config, seconds, new_manager}

seconds-pos :
    (s : ℤ) → pos_part s * second < 9223372036854775808 → seconds s ≡ pos (pos_part s * second)
seconds-pos s h = ground arith

-- The default and the longest cooldown of the entities are positive and the backoff of an endpoint does not
-- overflow, if their seconds are within the range of an int64 of nanoseconds.
pub new_manager-IsSane :
    (cooldown_sec max_sec wait_sec billing_sec block_sec : ℤ) (scope : String) (has_store : Bool)
    → pos_part cooldown_sec < 144115188
    → pos_part max_sec < 9223372036
    → IsSane
        (new_manager
          (config_from_app_config cooldown_sec max_sec wait_sec billing_sec block_sec scope)
          has_store).ecfg
unfolding new_manager config_from_app_config
new_manager-IsSane c x w b k scope has_store h g =
    ground (arith, seconds-pos c (omega arith), seconds-pos x (omega arith))

-- The settings of a manager: positive durations, of which a timeout's cooldown is at most the default one, and
-- a positive length of its queues.
pub record AreUsable (m : Manager) : Type 0 where
  pub sane : IsSane m.ecfg
  pub timeout : is_positive m.ecfg.timeout_cooldown ≡ true
  pub shorter : pos_part m.ecfg.timeout_cooldown ≤ pos_part m.ecfg.default_cooldown
  pub billing : is_positive m.ecfg.billing_cooldown ≡ true
  pub block : is_positive m.cfg.capability_block ≡ true
  pub max_wait : is_positive m.cfg.request_max_wait ≡ true
  pub queue : is_positive m.cfg.queue_max_len ≡ true

-- Whatever the configured seconds are, zero and negative ones included, as long as the positive ones are
-- within range (the cooldown's below 144115188, so that six doublings fit an int64 of nanoseconds, each
-- other's below 9223372036), and whatever the scope is: the default, timeout, longest and billing cooldowns, the
-- capability block, the longest wait and the length of a queue of the manager are positive, a timeout's
-- cooldown is at most the default one, and six doublings of the default one do not overflow.
pub new_manager-AreUsable :
    (cooldown_sec max_sec wait_sec billing_sec block_sec : ℤ) (scope : String) (has_store : Bool)
    → pos_part cooldown_sec < 144115188
    → pos_part max_sec < 9223372036
    → pos_part wait_sec < 9223372036
    → pos_part billing_sec < 9223372036
    → pos_part block_sec < 9223372036
    → AreUsable (
        new_manager
          (config_from_app_config cooldown_sec max_sec wait_sec billing_sec block_sec scope)
          has_store)
unfolding new_manager config_from_app_config
new_manager-AreUsable c x w b k scope has_store hc hx hw hb hk = record {
  sane = new_manager-IsSane c x w b k scope has_store hc hx;
  timeout = ground (arith, seconds-pos c (omega arith));
  shorter = ground (arith, seconds-pos c (omega arith));
  billing = ground (arith, seconds-pos b (omega arith));
  block = ground (arith, seconds-pos k (omega arith));
  max_wait = ground (arith, seconds-pos w (omega arith));
  queue = ground arith;
}
