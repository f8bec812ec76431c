-- ===== src/Scheduler/Reachable/Runs.antt =====
-- internal/scheduler/scheduler.go: any sequence of the Manager's calls.
use api_gateway.Prelude.{◌<◌, ℕ, Bool, List, String, ℤ, arith, pos_part, get, int_eq}
use api_gateway.Clock.{Time}
use api_gateway.Host.{Host}
use api_gateway.Entity.{PlatformKey}
use api_gateway.Formats.{RapiRow}
use api_gateway.Key.Invariant as KeyInvariant
use api_gateway.Rapi.Invariant as RapiInvariant
use api_gateway.Rapi.Backoff.{IsSane}
use api_gateway.Scheduler.Manager
use api_gateway.Scheduler.Manager.{Manager, Config, new_manager, config_from_app_config}
use api_gateway.Scheduler.Manager.Settings.{new_manager-IsSane}
use api_gateway.Scheduler.Endpoints.{row_less, sorted_manager, pick_available}
use api_gateway.Scheduler.Keys.{index_less, turn_order, pick_available_key}
use api_gateway.Scheduler.Sorting.{sort_stable}
use api_gateway.Scheduler.Pool.{mark_pool_exhausted}
use api_gateway.Scheduler.Recovery.{advance_all}
use api_gateway.Scheduler.Reachable.{
  IsValid, set_rapi-Step, set_key-Step, scan_rows-IsValid, scan_keys-IsValid,
  mark_pool_exhausted-IsValid, mark_success-IsValid, remove_key-IsValid, advance_all-IsValid,
}

-- One call of the manager, or one round of its recovery loop, with any arguments and any reading of the
-- clock.
pub data Step (m : Manager) : Manager → Type 0 where
  picks :
      (host : Host) (clock now : Time) (rows : List RapiRow) (prefer : String)
      → Step m (pick_available host clock now m rows prefer).0
  picks_key :
      (clock now : Time) (keys : List PlatformKey) (session : String)
      → Step m (pick_available_key clock now m keys session).0
  invalidates : (clock : Time) (id : ℤ) → Step m (Manager.invalidate_rapi clock id m)
  revalidates : (clock : Time) (id : ℤ) → Step m (Manager.revalidate_rapi clock id m)
  loses_keys :
      (clock : Time) (id : ℤ) (hard : Bool) (reason : String)
      → Step m (Manager.mark_all_keys_unavailable clock id hard reason m).0
  exhausts_pool :
      (clock : Time) (id : ℤ) (key_ids : List ℤ) (at : Time) (reason : String)
      → Step m (mark_pool_exhausted clock id key_ids at reason m).0
  succeeds : (clock : Time) (id : ℤ) → Step m (Manager.mark_success clock id m)
  fails :
      (clock : Time) (id : ℤ) (retry_at : Time) (reason : String) (is_timeout : Bool)
      → Step m (Manager.mark_failure clock id retry_at reason is_timeout m).0
  fails_on_platform :
      (clock : Time) (id : ℤ) (reason : String)
      → Step m (Manager.mark_platform_failure clock id reason m).0
  key_fails :
      (clock : Time) (id : ℤ) (retry_at : Time) (reason : String) (is_timeout : Bool)
      → Step m (Manager.mark_key_failure clock id retry_at reason is_timeout m).0
  key_fails_for_now :
      (clock : Time) (id : ℤ) (retry_at : Time) (reason : String) (is_timeout : Bool)
      → Step m (Manager.mark_key_temporary_failure clock id retry_at reason is_timeout m).0
  key_fails_to_pay :
      (clock : Time) (id : ℤ) (reason : String)
      → Step m (Manager.mark_key_billing_failure clock id reason m).0
  key_fails_on_platform :
      (clock : Time) (id : ℤ) (reason : String)
      → Step m (Manager.mark_key_platform_failure clock id reason m).0
  key_succeeds : (clock : Time) (id : ℤ) → Step m (Manager.mark_key_success clock id m)
  removes_key : (id : ℤ) → Step m (Manager.remove_key id m)
  records :
      (host : Host) (now : Time) (id : ℤ) (tokens : ℕ)
      → Step m (Manager.record_request host now id tokens m)
  knows_platform :
      (clock : Time) (id : ℤ) (available : Bool)
      → Step m (Manager.platform_entity clock id available m).1
  recovers : (clock now : Time) → Step m (advance_all clock now m)

pub data Reach (m : Manager) : Manager → Type 0 where
  here : Reach m m
  also : {n o : Manager} → Reach m n → Step n o → Reach m o

pub Step-IsValid : {m n : Manager} → Step m n → IsValid m → IsValid n
unfolding pick_available pick_available_key Manager.invalidate_rapi Manager.revalidate_rapi
    Manager.mark_all_keys_unavailable Manager.mark_failure Manager.mark_platform_failure
    Manager.mark_key_failure Manager.mark_key_temporary_failure Manager.mark_key_billing_failure
    Manager.mark_key_platform_failure Manager.mark_key_success Manager.record_request
    Manager.platform_entity
Step-IsValid {m} (picks host clock now rows prefer) v =
    scan_rows-IsValid clock now (sorted_manager host now rows m) 0
      (sort_stable (row_less host m now prefer) rows)
      (record {
        endpoints = record { sane = v.endpoints.sane; entities = v.endpoints.entities };
        credentials = record { cooled = v.credentials.cooled; entities = v.credentials.entities };
      })
Step-IsValid {m} (picks_key clock now keys session) v =
    let turn = turn_order m now session (sort_stable index_less keys) in
    scan_keys-IsValid clock now (record m { key_cursors = turn.1 }) 0 turn.0
      (record {
        endpoints = record { sane = v.endpoints.sane; entities = v.endpoints.entities };
        credentials = record { cooled = v.credentials.cooled; entities = v.credentials.entities };
      })
Step-IsValid {m} (invalidates clock id) v =
    set_rapi-Step clock id m (RapiInvariant.Step.invalidates clock) v
Step-IsValid {m} (revalidates clock id) v =
    set_rapi-Step clock id m (RapiInvariant.Step.revalidates clock) v
Step-IsValid {m} (loses_keys clock id hard reason) v =
    set_rapi-Step clock id m (RapiInvariant.Step.loses_keys clock hard reason) v
Step-IsValid {m} (exhausts_pool clock id key_ids at reason) v =
    mark_pool_exhausted-IsValid clock id key_ids at reason m v
Step-IsValid {m} (succeeds clock id) v = mark_success-IsValid clock id m v
Step-IsValid {m} (fails clock id retry_at reason is_timeout) v =
    set_rapi-Step clock id m (RapiInvariant.Step.fails clock reason retry_at is_timeout) v
Step-IsValid {m} (fails_on_platform clock id reason) v =
    set_rapi-Step clock id m (RapiInvariant.Step.fails_on_platform clock reason) v
Step-IsValid {m} (key_fails clock id retry_at reason is_timeout) v =
    set_key-Step clock id m (KeyInvariant.Step.fails clock reason retry_at is_timeout) v
Step-IsValid {m} (key_fails_for_now clock id retry_at reason is_timeout) v =
    set_key-Step clock id m (KeyInvariant.Step.fails_for_now clock reason retry_at is_timeout) v
Step-IsValid {m} (key_fails_to_pay clock id reason) v =
    set_key-Step clock id m (KeyInvariant.Step.fails_to_pay clock reason) v
Step-IsValid {m} (key_fails_on_platform clock id reason) v =
    set_key-Step clock id m (KeyInvariant.Step.fails_on_platform clock reason) v
Step-IsValid {m} (key_succeeds clock id) v =
    set_key-Step clock id m (KeyInvariant.Step.succeeds clock) v
Step-IsValid {m} (removes_key id) v = remove_key-IsValid id m v
Step-IsValid {m} (records host now id tokens) v = record {
  endpoints = record { sane = v.endpoints.sane; entities = v.endpoints.entities };
  credentials = record { cooled = v.credentials.cooled; entities = v.credentials.entities };
}
Step-IsValid {m} (knows_platform clock id available) v = record {
  endpoints = record { sane = v.endpoints.sane; entities = v.endpoints.entities };
  credentials = record { cooled = v.credentials.cooled; entities = v.credentials.entities };
}
Step-IsValid {m} (recovers clock now) v = advance_all-IsValid clock now m v

Reach-IsValid : {m n : Manager} → Reach m n → IsValid m → IsValid n
Reach-IsValid here v = v
Reach-IsValid (also r s) v = Step-IsValid s (Reach-IsValid r v)

new_manager-IsValid :
    (cfg : Config) (has_store : Bool)
    → IsSane (new_manager cfg has_store).ecfg
    → IsValid (new_manager cfg has_store)
unfolding new_manager get
new_manager-IsValid cfg has_store s = record {
  endpoints = record { sane = s; entities = λ id r h. absurd (ground (arith, h)) };
  credentials = record { cooled = s.some_default; entities = λ id k h. absurd (ground (arith, h)) };
}

-- Whatever calls have been made of a manager that was made from the application's settings, within the
-- range of an int64 of nanoseconds: every entity that it holds, and each that it will make, satisfies its
-- invariant.
pub new_manager-Reach-IsValid :
    (cooldown_sec max_sec wait_sec billing_sec block_sec : ℤ) (scope : String) (has_store : Bool)
    {m : Manager}
    → pos_part cooldown_sec < 144115188
    → pos_part max_sec < 9223372036
    → Reach
        (new_manager
          (config_from_app_config cooldown_sec max_sec wait_sec billing_sec block_sec scope)
          has_store)
        m
    → IsValid m
new_manager-Reach-IsValid c x w b k scope has_store h g r =
    Reach-IsValid r
      (new_manager-IsValid _ has_store (new_manager-IsSane c x w b k scope has_store h g))
