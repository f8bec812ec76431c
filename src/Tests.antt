-- ===== src/Tests.antt =====
-- Concrete runs of the theorems: the data that they share.
mod Entities
mod Endpoints
mod Keys
mod Queue
mod Bundles
mod Runs
mod Proxy
mod Sync
mod Secrets
use api_gateway.Prelude.{◌-◌, ◌%◌, true, false, none, some, List, [], ◌∷◌, String, ℤ, pos, negsuc}
use api_gateway.Clock.{truncate, hour}
use api_gateway.Host.{Host}
use api_gateway.Entity.{CooldownConfig, PlatformKey}
use api_gateway.Rapi.Backoff.{IsSane}
use api_gateway.Formats.{RapiRow}
use api_gateway.Scheduler.Manager.{Manager, Config, default_config, new_manager}

abbrev pub cooldowns : CooldownConfig
cooldowns = record {
  default_cooldown = pos 10;
  timeout_cooldown = pos 5;
  max_cooldown = pos 120;
  exponential_backoff = true;
  billing_cooldown = pos 1800;
}

-- A calendar in UTC, a fixed time of day 09:00, and a decoder that reads one rule and one format.
abbrev pub utc : Host
utc = record {
  day_start = λ t. truncate t 86400000000000;
  hhmm = λ t. 48 ∷ 57 ∷ 58 ∷ 48 ∷ 48 ∷ [];
  parse_rules = λ s. some (record { start = 48 ∷ 56 ∷ []; end = 50 ∷ 48 ∷ []; cost = pos 7 } ∷ []);
  parse_strings = λ s. some (s ∷ []);
}

abbrev pub key_row : ℤ → ℤ → PlatformKey
key_row id place = record {
  id = id;
  platform_id = pos 1;
  key_index = place;
  token = "sk";
  label = "key";
  enabled = true;
  failure_type = pos 0;
  failure_reason = "";
  expires_at = none;
}

abbrev pub expired_row : ℤ → ℤ → PlatformKey
expired_row id place = record (key_row id place) { expires_at = some 40 }

abbrev pub endpoint : ℤ → ℤ → String → RapiRow
endpoint id cost rules = record {
  id = id;
  alias = "model";
  model = "m";
  platform_id = pos 1;
  source = "auto_discover";
  key_ids = "";
  base_url = "https://a";
  token = "";
  platform_format_endpoints = "{}";
  keys = [];
  enabled = true;
  available = true;
  base_cost = cost;
  high_cost = pos 50;
  rpm_limit = pos 2;
  rph_limit = pos 0;
  rpd_limit = pos 0;
  tpm_limit = pos 0;
  tph_limit = pos 100;
  tpd_limit = pos 0;
  supported_formats = "openai";
  platform_supported_formats = "[]";
  time_period_rules = rules;
  order_index = id;
}

abbrev pub fresh_manager : Manager
fresh_manager = record (new_manager default_config true) { ecfg = cooldowns }
