-- ===== src/Tests/Keys.antt =====
-- Concrete runs of the theorems on the picking of keys, their cursors and their pools.
use mathlib.Core.Logic.Or
use mathlib.Core.HLevel.{⊥_prop}
use mathlib.Core.List.{Mem, Nodup, Nodup-cons, Nodup-nil, not-mem-nil, eq-or-mem_of_mem-cons}
use api_gateway.Prelude.{
  ℕ, zero, suc, ◌≡◌, ◌≢◌, ◌<◌, refl, true, false, none, some, List, [], ◌∷◌, arith, ℤ, pos, All,
  get, eq_ℤ, int_eq, Bool-cases, inl, inr, Memᴰ, subst, map, length, ◌||◌,
}
use api_gateway.Clock.{Time}
use api_gateway.Entity.{PlatformKey, healthy, cooling, eq_state}
use api_gateway.Key.{Key, new_key, fire_key, advance_key}
use api_gateway.Key.Calls as KeyCalls
use api_gateway.Key.Invariant.{Inv, Reach, Step, new_key-Reach-Inv}
use api_gateway.Rapi.{new_rapi}
use api_gateway.Scheduler.Scanning.{picked, IsServed}
use api_gateway.Scheduler.Cursor.{
  CursorKey, Cursors, cursor_key_eq, cursor_key, is_fresh, evict_cursors, next_turn,
}
use api_gateway.Scheduler.Cursor.Rotation.{nth, turns_until}
use api_gateway.Scheduler.Cursor.Eviction.{next_turn_pinned, evict_cursors_platform}
use api_gateway.Scheduler.Manager.{Manager, rapi_of, new_manager}
use api_gateway.Scheduler.Keys.{turn_order, pick_available_key}
use api_gateway.Scheduler.Keys.Usable.{IsValid, serves, recovers_at, pick_available_key-IsServed}
use api_gateway.Scheduler.Keys.Rounds.{cursor_for, turns, every_key_first}
use api_gateway.Scheduler.Pool.{cooling_until, mark_pool_exhausted, mark_pool_exhausted_aligned}
use api_gateway.Tests.{cooldowns, key_row, expired_row, fresh_manager}

-- Key 1 cools down until 110, the row of key 2 has expired, key 3 is unused.
abbrev cooling_key : Key
cooling_key = (KeyCalls.on_temporary_failure 100 "429" 0 false (new_key (pos 1) cooldowns true 0)).0

cooling_key-Inv : Inv cooling_key
cooling_key-Inv =
    new_key-Reach-Inv (pos 1) cooldowns true 0 refl
      (Reach.also Reach.here (Step.fails_for_now 100 "429" 0 false))

abbrev cursor : CursorKey
cursor = record { platform_id = pos 1; session_id = "alice" }

abbrev manager : Manager
manager = record fresh_manager {
  keys = (pos 1, cooling_key) ∷ [];
  key_cursors = (cursor, record { n = 4; last_used = 90 }) ∷ [];
}

manager-entities : (id : ℤ) (k : Key) → get id manager.keys ≡ some k → Inv k
unfolding get
manager-entities id k h = elim (Bool-cases (eq_ℤ (pos 1) id)) [
  | inl e ↦ subst Inv (ground (arith, e, h)) cooling_key-Inv
  | inr e ↦ absurd (ground (arith, e, h))
]

manager-IsValid : IsValid manager
manager-IsValid = record { cooled = refl; entities = manager-entities }

abbrev rows : List PlatformKey
rows = key_row (pos 1) (pos 0) ∷ expired_row (pos 2) (pos 1) ∷ key_row (pos 3) (pos 2) ∷ []

not_mem_cons : (a b : ℤ) (l : List ℤ) → a ≢ b → ¬ Mem a l → ¬ Mem a (b ∷ l)
not_mem_cons a b l n m h = Or.elim ⊥_prop (eq-or-mem_of_mem-cons h) n m

rows-Nodup : Nodup (map (λ k. k.id) rows)
rows-Nodup = Nodup-cons.1 (
  not_mem_cons (pos 1) (pos 2) (pos 3 ∷ []) (λ e. ground (arith, e))
      (not_mem_cons (pos 1) (pos 3) [] (λ e. ground (arith, e)) not-mem-nil),
  Nodup-cons.1 (
    not_mem_cons (pos 2) (pos 3) [] (λ e. ground (arith, e)) not-mem-nil,
    Nodup-cons.1 (not-mem-nil, Nodup-nil),
  ),
)

pick_available_key-IsServed_example :
    IsServed
      (serves 105 105 manager)
      (recovers_at 105 105 manager)
      rows
      (pick_available_key 105 105 manager rows "alice").1
pick_available_key-IsServed_example =
    pick_available_key-IsServed 105 105 manager rows "alice" manager-IsValid rows-Nodup

-- At 110 the cooldown of key 1 is over.
one_row-picked :
    (pick_available_key 110 110 manager (key_row (pos 1) (pos 0) ∷ []) "alice").1
    ≡ picked (key_row (pos 1) (pos 0))
unfolding pick_available_key new_manager KeyCalls.pickable KeyCalls.sync
    KeyCalls.on_temporary_failure fire_key new_key advance_key
one_row-picked = refl

-- The session of alice has its cursor at 4.
alice-cursor :
    get (cursor_for manager "alice" (key_row (pos 1) (pos 0))) manager.key_cursors
    ≡ some (record { n = 4; last_used = 90 })
unfolding get new_manager cursor_key
alice-cursor = refl

abbrev later_rows : List PlatformKey
later_rows = expired_row (pos 2) (pos 1) ∷ key_row (pos 3) (pos 2) ∷ []

abbrev two_times : List Time
two_times = 105 ∷ 106 ∷ []

-- Place 0 of three comes first after two picks, since 4 + 2 is a multiple of 3.
two_turns : length two_times ≡ turns_until (length rows) 4 0
unfolding turns_until
two_turns = refl

every_key_first_example :
    (length two_times < length rows)
    × (nth 0
          (turn_order
            (turns "alice" (key_row (pos 1) (pos 0)) later_rows two_times manager)
            107
            "alice"
            rows).0
        ≡ nth 0 rows)
every_key_first_example =
    every_key_first "alice" (key_row (pos 1) (pos 0)) later_rows two_times 107 manager
      (record { n = 4; last_used = 90 }) 0 alice-cursor (omega arith) (omega arith) two_turns

-- A pool with the cooling key 1: all of it waits until 400.
key_1-cooling : cooling_until (get (pos 1) manager.keys) ≡ some 110
unfolding get KeyCalls.on_temporary_failure new_key fire_key
key_1-cooling = refl

endpoint_9-healthy :
    (eq_state (rapi_of manager 105 (pos 9)).0.state healthy
      || eq_state (rapi_of manager 105 (pos 9)).0.state cooling)
    ≡ true
unfolding rapi_of get new_manager new_rapi
endpoint_9-healthy = refl

mark_pool_exhausted_aligned_example :
    let m' = (mark_pool_exhausted 105 (pos 9) (pos 3 ∷ pos 1 ∷ []) 400 "pool" manager).0 in
    (cooling_until (get (pos 1) m'.keys) ≡ some 400)
    × ((rapi_of m' 105 (pos 9)).0.state ≡ cooling)
    × ((rapi_of m' 105 (pos 9)).0.wake_at ≡ 400)
mark_pool_exhausted_aligned_example =
    mark_pool_exhausted_aligned 105 (pos 9) (pos 3 ∷ pos 1 ∷ []) 400 "pool" manager (pos 1) 110 refl
      (Memᴰ.tail (Memᴰ.head refl)) key_1-cooling endpoint_9-healthy

-- A sweep with a cursor of a platform.
evict_cursors_platform_example :
    get
      (record { platform_id = pos 1; session_id = "" })
      (evict_cursors 700000000000 (
        (cursor, record { n = 4; last_used = 90 })
        ∷ (record { platform_id = pos 1; session_id = "" }, record { n = 2; last_used = 0 })
        ∷ []))
    ≡ get
        (record { platform_id = pos 1; session_id = "" })
        ((cursor, record { n = 4; last_used = 90 })
          ∷ (record { platform_id = pos 1; session_id = "" }, record { n = 2; last_used = 0 })
          ∷ [])
evict_cursors_platform_example =
    evict_cursors_platform 700000000000 (record { platform_id = pos 1; session_id = "" })
      ((cursor, record { n = 4; last_used = 90 })
        ∷ (record { platform_id = pos 1; session_id = "" }, record { n = 2; last_used = 0 })
        ∷ [])
      refl

-- 1024 sessions in use, and a new one.
crowd : Time → ℕ → Cursors
crowd now zero = []
crowd now (suc n) =
    (record { platform_id = pos n; session_id = "x" }, record { n = 1; last_used = now })
    ∷ crowd now n

length-crowd : (now : Time) (n : ℕ) → length (crowd now n) ≡ n
unfolding crowd
length-crowd now zero = refl
length-crowd now (suc n) = omega (arith, length-crowd now n)

get-crowd : (now : Time) (n : ℕ) → get cursor (crowd now n) ≡ none
unfolding crowd get
get-crowd now zero = refl
get-crowd now (suc n) = ground (arith, get-crowd now n)

crowd-fresh : (now : Time) (n : ℕ) → All (λ e. is_fresh now e ≡ true) (crowd now n)
unfolding crowd
crowd-fresh now zero = tt
crowd-fresh now (suc n) = (ground arith, crowd-fresh now n)

next_turn_pinned_example :
    next_turn cursor 900000000000 3 (crowd 900000000000 1024) ≡ (0, crowd 900000000000 1024)
next_turn_pinned_example =
    next_turn_pinned cursor 900000000000 3 (crowd 900000000000 1024) (λ e. cc)
      (get-crowd 900000000000 1024) (omega arith) (omega (arith, length-crowd 900000000000 1024))
      (omega (arith, length-crowd 900000000000 1024)) (crowd-fresh 900000000000 1024)
