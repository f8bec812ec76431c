-- ===== src/Key/Stuck.antt =====
-- internal/entity/key.go: a key in the platform-failed state without a timer does not recover by
-- itself, whatever its row says; the comments of the file say that the state auto-recovers.
use api_gateway.Prelude.{◌≡◌, true, false, some, List, [], ◌∷◌, String, arith}
use api_gateway.Clock.{Time}
use api_gateway.Entity.{
  healthy, platform_failed, platform_failure, session, PlatformKey, key_row_usable,
}
use api_gateway.Key.{Key, advance_key, on_platform_failure}
use api_gateway.Key.Edges.{follow, fire_key_lem, advance_key_lem}
use api_gateway.Key.Calls
use api_gateway.Key.Calls.{is_dead, sync, pickable}

-- What the recovery loop and the picking of keys do to a key while its row is usable.
pub data Poll : Type 0 where
  picks : (row : PlatformKey) (clock now : Time) → key_row_usable row now ≡ true → Poll
  wakes : (clock now : Time) → Poll

unfoldable pub poll : Poll → Key → Key
poll (picks row clock now u) k = (pickable clock now (sync row clock now k)).0
poll (wakes clock now) k = advance_key clock now k

unfoldable pub polls : List Poll → Key → Key
unfolding poll
polls [] k = k
polls (p ∷ ps) k = polls ps (poll p k)

abbrev pub IsStuck : Key → Type 0
IsStuck k = (k.0.state ≡ platform_failed) × (k.0.wake_at ≡ 0)

poll-IsStuck : (p : Poll) (k : Key) → IsStuck k → IsStuck (poll p k)
unfolding poll pickable Calls.pickable_in Calls.cooled sync key_row_usable
poll-IsStuck (picks row clock now u) k s = ground (arith, advance_key_lem clock now k)
poll-IsStuck (wakes clock now) k s = ground (arith, advance_key_lem clock now k)

polls-IsStuck : (ps : List Poll) (k : Key) → IsStuck k → IsStuck (polls ps k)
unfolding polls
polls-IsStuck [] k s = s
polls-IsStuck (p ∷ ps) k s = polls-IsStuck ps (poll p k) (poll-IsStuck p k s)

IsStuck-pickable :
    (row : PlatformKey) (clock now : Time) (k : Key)
    → IsStuck k
    → key_row_usable row now ≡ true
    → (pickable clock now (sync row clock now k)).1 ≡ false
unfolding pickable Calls.pickable_in Calls.cooled sync key_row_usable
IsStuck-pickable row clock now k s u = ground (arith, advance_key_lem clock now k)

on_platform_failure-IsStuck :
    (clock : Time) (reason : String) (k : Key)
    → k.0.state ≡ healthy
    → k.0.wake_at ≡ 0
    → IsStuck (Calls.on_platform_failure clock reason k).0
unfolding Calls.on_platform_failure Calls.fire_failure follow on_platform_failure
on_platform_failure-IsStuck clock reason k h w = ground (
  arith,
  fire_key_lem clock platform_failure
      (some (
        session (record {
          reason = reason;
          retry_at = 0;
          is_timeout = false;
          is_billing = false;
          persist_temporary = false;
        })))
      k,
)

-- A healthy key with no timer that meets a platform failure is not picked afterwards, however often
-- it is polled, whenever that is, and although its row is usable throughout.
pub platform_failure_stuck :
    (clock : Time) (reason : String) (k : Key) (ps : List Poll) (row : PlatformKey)
    (later now : Time)
    → k.0.state ≡ healthy
    → k.0.wake_at ≡ 0
    → key_row_usable row now ≡ true
    → let j = polls ps (Calls.on_platform_failure clock reason k).0 in
      (pickable later now (sync row later now j)).1 ≡ false
platform_failure_stuck clock reason k ps row later now h w u =
    IsStuck-pickable row later now _
      (polls-IsStuck ps _ (on_platform_failure-IsStuck clock reason k h w)) u
