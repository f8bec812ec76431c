-- ===== src/Key/Sync.antt =====
-- internal/entity/key.go: `Sync` with a row, and then `Pickable`.
use api_gateway.Prelude.{
  ◌≡◌, ◌<◌, ◌⊎◌, inl, inr, Bool, true, false, not, ◌&&◌, ◌||◌, none, some, if◌then◌else◌, arith,
  Bool-cases,
}
use api_gateway.Clock.{Time, is_zero, after}
use api_gateway.Fsm.{set_timer}
use api_gateway.Entity.{
  healthy, cooling, platform_failed, permanent_failure, disable, enable, expire, timer_expired,
  PlatformKey, eq_state, key_row_usable, row_reason,
}
use api_gateway.Key.{Key, on_row_fact, on_enable, on_timer_expired}
use api_gateway.Key.Edges.{follow, fire_key_lem, advance_key_lem}
use api_gateway.Key.Calls
use api_gateway.Key.Calls.{is_dead, sync, pickable, align_cooldown_to}
use api_gateway.Key.Invariant.{Inv}

sync_unusable :
    (row : PlatformKey) (clock now : Time) (k : Key)
    → Inv k
    → key_row_usable row now ≡ false
    → is_dead (sync row clock now k).0.state ≡ true
unfolding sync key_row_usable follow on_row_fact set_timer
sync_unusable row clock now k v h = ground (
  arith,
  fire_key_lem clock disable none k,
  fire_key_lem clock permanent_failure (some (row_reason row.failure_reason)) k,
  fire_key_lem clock expire none k,
)

sync_usable :
    (row : PlatformKey) (clock now : Time) (k : Key)
    → key_row_usable row now ≡ true
    → (sync row clock now k).0.state ≡ (if is_dead k.0.state then healthy else k.0.state)
unfolding sync key_row_usable follow on_enable
sync_usable row clock now k h = ground (arith, fire_key_lem clock enable none k)

pickable_dead :
    (clock now : Time) (k : Key) → is_dead k.0.state ≡ true → (pickable clock now k).1 ≡ false
unfolding pickable Calls.pickable_in
pickable_dead clock now k h = ground arith

-- A key whose state or timer lets it serve, once its row is in order.
unfoldable pub is_ready : Key → Time → Bool
is_ready (m, o) now =
    is_dead m.state
    || eq_state m.state healthy
    || ((eq_state m.state cooling || eq_state m.state platform_failed)
        && not (is_zero m.wake_at)
        && not (after m.wake_at now))

pickable_usable :
    (row : PlatformKey) (clock now : Time) (k : Key)
    → Inv k
    → key_row_usable row now ≡ true
    → (pickable clock now (sync row clock now k)).1 ≡ is_ready k now
unfolding pickable Calls.pickable_in Calls.cooled sync key_row_usable is_ready follow on_enable
    on_timer_expired set_timer
pickable_usable row clock now k v h = ground (
  arith,
  fire_key_lem clock enable none k,
  advance_key_lem clock now k,
  fire_key_lem clock timer_expired none (set_timer 0 k.0, k.1),
)

-- For a key that satisfies its invariant: after `Sync` with a row, `Pickable` says yes exactly when the row is usable and the key was dead
-- (and is recovered by the row), healthy, or in a cooldown whose timer has run out.
pub pickable-sync :
    (row : PlatformKey) (clock now : Time) (k : Key)
    → Inv k
    → (pickable clock now (sync row clock now k)).1 ≡ (key_row_usable row now && is_ready k now)
pickable-sync row clock now k v = elim (Bool-cases (key_row_usable row now)) [
  | inl u ↦ rw u (pickable_usable row clock now k v u)
  | inr u ↦
      rw u (pickable_dead clock now (sync row clock now k) (sync_unusable row clock now k v u))
]

-- A key that `Sync` and then `Pickable` accept is healthy afterwards.
pub pickable_healthy :
    (clock now : Time) (k : Key)
    → (pickable clock now k).1 ≡ true
    → (pickable clock now k).0.0.state ≡ healthy
unfolding pickable Calls.pickable_in Calls.cooled
pickable_healthy clock now k h = ground arith

-- What `Pickable` refuses with a time has a timer that runs out then, after now.
pub pickable_recovers :
    (clock now : Time) (k : Key)
    → (pickable clock now k).1 ≡ false
    → ((pickable clock now k).2 ≡ 0)
      ⊎ (((pickable clock now k).2 ≡ k.0.wake_at) × (now < k.0.wake_at))
unfolding pickable Calls.pickable_in Calls.cooled
pickable_recovers clock now k h = ground arith

-- A key in a cooldown, of either kind, whose timer has not run out.
unfoldable pub is_waiting : Key → Time → Bool
is_waiting (m, o) now =
    (eq_state m.state cooling || eq_state m.state platform_failed) && after m.wake_at now

pickable_dead_time :
    (clock now : Time) (k : Key) → is_dead k.0.state ≡ true → (pickable clock now k).2 ≡ 0
unfolding pickable Calls.pickable_in
pickable_dead_time clock now k h = ground arith

pickable_usable_time :
    (row : PlatformKey) (clock now : Time) (k : Key)
    → Inv k
    → key_row_usable row now ≡ true
    → (pickable clock now (sync row clock now k)).2 ≡ (if is_waiting k now then k.0.wake_at else 0)
unfolding pickable Calls.pickable_in Calls.cooled sync key_row_usable is_waiting follow on_enable
    on_timer_expired set_timer
pickable_usable_time row clock now k v h = ground (
  arith,
  fire_key_lem clock enable none k,
  advance_key_lem clock now k,
  fire_key_lem clock timer_expired none (set_timer 0 k.0, k.1),
)

-- The time that `Pickable` gives after `Sync` is that of the timer of a usable key in a cooldown, and
-- otherwise zero.
pub pickable-sync_time :
    (row : PlatformKey) (clock now : Time) (k : Key)
    → Inv k
    → (pickable clock now (sync row clock now k)).2
      ≡ (if key_row_usable row now && is_waiting k now then k.0.wake_at else 0)
pickable-sync_time row clock now k v = elim (Bool-cases (key_row_usable row now)) [
  | inl u ↦ rw u (pickable_usable_time row clock now k v u)
  | inr u ↦
      rw u (pickable_dead_time clock now (sync row clock now k) (sync_unusable row clock now k v u))
]
