-- ===== src/Scheduler/Keys/Usable.antt =====
-- internal/scheduler/scheduler.go: which key PickAvailableKey picks.
use mathlib.Core.List.{Mem, Nodup, Nodup-cons, Perm, mem-cons, mem-cons_of_mem}
use mathlib.Core.Logic.Or
use mathlib.Core.List.Perm
use api_gateway.Prelude.{
  ◌≡◌, refl, sym, ◌∙◌, map, Bool, true, false, ◌&&◌, some, List, [], ◌∷◌, String, arith,
  if◌then◌else◌, ℤ, eq_ℤ, eq_ℤ_iff, int_eq, get, get-put, Option-cases, Bool-cases, inl, inr, All,
  length, is_positive,
}
use api_gateway.Clock.{Time}
use api_gateway.Entity.{PlatformKey, key_row_usable, healthy}
use api_gateway.Key.{Key}
use api_gateway.Key.Calls.{pickable, sync}
use api_gateway.Key.Invariant.{Inv, new_key-Inv}
use api_gateway.Key.Sync.{is_ready, is_waiting, pickable-sync, pickable-sync_time, pickable_healthy}
use api_gateway.Scheduler.Manager.{Manager, key_of, set_key}
use api_gateway.Scheduler.Scanning.{
  Picked, picked, unavailable, sooner, first_row, IsAttained-Perm, IsServed, first_row-IsServed,
}
use api_gateway.Scheduler.Sorting.{sort_stable, sort_stable-perm, sort_stable-All_of}
use api_gateway.Scheduler.Cursor.{cursor_key, next_turn}
use api_gateway.Scheduler.Cursor.Rotation.{rotate-perm, rotate-All_of}
use api_gateway.Scheduler.Keys.{scan_keys, turn_order, pick_available_key, index_less}

-- Every key entity of the manager satisfies its invariant, and so will those made later.
pub record IsValid (m : Manager) : Type 0 where
  pub cooled : is_positive m.ecfg.default_cooldown ≡ true
  pub entities : (id : ℤ) (k : Key) → get id m.keys ≡ some k → Inv k

pub key_of-Inv : (m : Manager) (clock : Time) (id : ℤ) → IsValid m → Inv (key_of m clock id)
unfolding key_of
key_of-Inv m clock id v = elim (Option-cases (get id m.keys)) [
  | inl e ↦ rw e (new_key-Inv id m.ecfg m.has_store clock v.cooled)
  | inr (k, e) ↦ rw e (v.entities id k e)
]

pub key_of-set :
    (m : Manager) (clock : Time) (id j : ℤ) (k : Key)
    → key_of (set_key id k m) clock j ≡ (if eq_ℤ id j then k else key_of m clock j)
unfolding key_of
key_of-set m clock id j k = ground (arith, get-put id j k m.keys)

-- A key that a pick may take: its row is usable, and its entity is dead and recovered by that row, or
-- healthy, or at the end of its cooldown.
unfoldable pub serves : Time → Time → Manager → PlatformKey → Bool
serves clock now m k = key_row_usable k now && is_ready (key_of m clock k.id) now

-- When the timer of a key runs out whose row is usable and whose entity is in a cooldown; zero for any other.
unfoldable pub recovers_at : Time → Time → Manager → PlatformKey → Time
recovers_at clock now m k =
    if key_row_usable k now && is_waiting (key_of m clock k.id) now
    then (key_of m clock k.id).0.wake_at
    else 0

-- No two rows have the same id.
abbrev pub AreDistinct : List PlatformKey → Type 0
AreDistinct [] = Unit
AreDistinct (k ∷ ks) = All (λ j. eq_ℤ k.id j.id ≡ false) ks × AreDistinct ks

-- Two managers have the same entities for the keys of a list.
abbrev Agree : Time → Manager → Manager → List PlatformKey → Type 0
Agree clock a b = All (λ k. key_of a clock k.id ≡ key_of b clock k.id)

set_other :
    (clock : Time) (a b : Manager) (id : ℤ) (e : Key) (ks : List PlatformKey)
    → All (λ j. eq_ℤ id j.id ≡ false) ks
    → Agree clock a b ks
    → Agree clock (set_key id e a) b ks
set_other clock a b id e [] d s = tt
set_other clock a b id e (k ∷ ks) d s =
    (key_of-set a clock id k.id e ∙ rw d.0 s.0, set_other clock a b id e ks d.1 s.1)

module _ (clock now : Time) (m : Manager) (v : IsValid m) where
  scan_from :
      (m' : Manager) (next : Time) (ks : List PlatformKey)
      → AreDistinct ks
      → Agree clock m' m ks
      → (scan_keys clock now m' next ks).1
        ≡ first_row (serves clock now m) (recovers_at clock now m) next ks
  unfolding scan_keys first_row serves recovers_at
  scan_from m' next [] d s = refl
  scan_from m' next (k ∷ ks) d s = ground (
    arith,
    s.0,
    pickable-sync k clock now (key_of m clock k.id) (key_of-Inv m clock k.id v),
    pickable-sync_time k clock now (key_of m clock k.id) (key_of-Inv m clock k.id v),
    scan_from (set_key k.id (pickable clock now (sync k clock now (key_of m' clock k.id))).0 m')
        (sooner next (recovers_at clock now m k)) ks d.1 (set_other clock m' m k.id _ ks d.0 s.1),
  )

-- In a list of rows with distinct ids the scan picks the first that serves, and it changes nothing that
-- a later row depends on.
pub scan_keys-first_row :
    (clock now : Time) (m m' : Manager) (ks : List PlatformKey)
    → IsValid m
    → AreDistinct ks
    → ((j : ℤ) → key_of m' clock j ≡ key_of m clock j)
    → (scan_keys clock now m' 0 ks).1
      ≡ first_row (serves clock now m) (recovers_at clock now m) 0 ks
scan_keys-first_row clock now m m' ks v d s = scan_from clock now m v m' 0 ks d (agree ks)
  where
    agree : (js : List PlatformKey) → Agree clock m' m js
    agree [] = tt
    agree (j ∷ js) = (s j.id, agree js)

not_mem-All :
    (id : ℤ) (ks : List PlatformKey)
    → ¬ (Mem id (map (λ k. k.id) ks))
    → All (λ j. eq_ℤ id j.id ≡ false) ks
not_mem-All id [] h = tt
not_mem-All id (k ∷ ks) h = (
  elim (Bool-cases (eq_ℤ id k.id)) [
    | inl e ↦ absurd (h (mem-cons.1 (Or.inl ((eq_ℤ_iff id k.id).0 e))))
    | inr e ↦ e
  ],
  not_mem-All id ks (λ g. h (mem-cons_of_mem k.id g)),
)

Nodup-AreDistinct : (ks : List PlatformKey) → Nodup (map (λ k. k.id) ks) → AreDistinct ks
Nodup-AreDistinct [] n = tt
Nodup-AreDistinct (k ∷ ks) n =
    let h = Nodup-cons.0 n in (not_mem-All k.id ks h.0, Nodup-AreDistinct ks h.1)

-- The order in which a pick tries the keys is a permutation of them.
pub turn_order-perm :
    (m : Manager) (now : Time) (session : String) (ks : List PlatformKey)
    → Perm (turn_order m now session ks).0 ks
unfolding turn_order
turn_order-perm m now session [] = Perm.refl []
turn_order-perm m now session (k ∷ ks) =
    rotate-perm
      (next_turn (cursor_key m.cfg.key_cursor_scope k.platform_id session) now (length (k ∷ ks))
        m.key_cursors).0
      (k ∷ ks)

turn_order-All_of {κ} :
    (P : PlatformKey → Type κ) (m : Manager) (now : Time) (session : String) (ks : List PlatformKey)
    → All P (turn_order m now session ks).0
    → All P ks
unfolding turn_order
turn_order-All_of P m now session [] h = tt
turn_order-All_of P m now session (k ∷ ks) h =
    rotate-All_of P
      (next_turn (cursor_key m.cfg.key_cursor_scope k.platform_id session) now (length (k ∷ ks))
        m.key_cursors).0
      (k ∷ ks) h

pub order-perm :
    (m : Manager) (now : Time) (session : String) (ks : List PlatformKey)
    → Perm (turn_order m now session (sort_stable index_less ks)).0 ks
order-perm m now session ks =
    Perm.trans (turn_order-perm m now session (sort_stable index_less ks))
      (sort_stable-perm index_less ks)

-- From the order of a pick back to the keys that it was given.
IsServed-keys :
    (clock now : Time) (m : Manager) (session : String) (ks : List PlatformKey)
    (out : Picked PlatformKey)
    → IsServed
        (serves clock now m)
        (recovers_at clock now m)
        (turn_order m now session (sort_stable index_less ks)).0
        out
    → IsServed (serves clock now m) (recovers_at clock now m) ks out
IsServed-keys clock now m session ks (picked k) s =
    ((Perm.mem_iff (order-perm m now session ks)).0 s.0, s.1)
IsServed-keys clock now m session ks (unavailable next) s = (
  sort_stable-All_of index_less _ ks (turn_order-All_of _ m now session _ s.0),
  IsAttained-Perm (recovers_at clock now m) next (order-perm m now session ks) s.1,
)

-- PickAvailableKey as a scan that changes nothing, in a manager whose key entities satisfy their invariant
-- and with rows of distinct ids: it returns the first key, in the order of the turn,
-- whose row is usable and whose entity is dead (and recovered by the row), healthy or at the end of its
-- cooldown.
pub pick_available_key-first_row :
    (clock now : Time) (m : Manager) (ks : List PlatformKey) (session : String)
    → IsValid m
    → Nodup (map (λ k. k.id) ks)
    → (pick_available_key clock now m ks session).1
      ≡ first_row
          (serves clock now m)
          (recovers_at clock now m)
          0
          (turn_order m now session (sort_stable index_less ks)).0
unfolding pick_available_key key_of
pick_available_key-first_row clock now m ks session v n =
    scan_keys-first_row clock now m
      (record m { key_cursors = (turn_order m now session (sort_stable index_less ks)).1 })
      (turn_order m now session (sort_stable index_less ks)).0 v
      (Nodup-AreDistinct _ (Perm.nodup (Perm.map _ (Perm.symm (order-perm m now session ks))) n))
      (λ j. refl)

-- In a manager whose key entities satisfy their invariant, with rows of distinct ids: if some key can
-- serve, one that can is picked, where a key can serve if its row is usable and its entity is healthy, is out
-- of service by an earlier row, or is in a cooldown whose timer has run out. If none is picked, none can
-- serve, and the time that comes with the error is the earliest at which the timer of a usable key in a
-- cooldown runs out, or zero if there is no such key.
pub pick_available_key-IsServed :
    (clock now : Time) (m : Manager) (ks : List PlatformKey) (session : String)
    → IsValid m
    → Nodup (map (λ k. k.id) ks)
    → IsServed
        (serves clock now m)
        (recovers_at clock now m)
        ks
        (pick_available_key clock now m ks session).1
pick_available_key-IsServed clock now m ks session v n = IsServed-keys clock now m session ks _ (
    first_row-IsServed (serves clock now m) (recovers_at clock now m) _ _
      (sym (pick_available_key-first_row clock now m ks session v n)))

scan_keys_healthy :
    (clock now : Time) (m : Manager) (next : Time) (ks : List PlatformKey) (k : PlatformKey)
    → (scan_keys clock now m next ks).1 ≡ picked k
    → (key_of (scan_keys clock now m next ks).0 clock k.id).0.state ≡ healthy
unfolding scan_keys
scan_keys_healthy clock now m next [] k h = cc
scan_keys_healthy clock now m next (j ∷ ks) k h = ground (
  arith,
  eq_ℤ_iff j.id k.id,
  key_of-set m clock j.id k.id (pickable clock now (sync j clock now (key_of m clock j.id))).0,
  pickable_healthy clock now (sync j clock now (key_of m clock j.id)),
  scan_keys_healthy clock now
      (set_key j.id (pickable clock now (sync j clock now (key_of m clock j.id))).0 m)
      (sooner next (pickable clock now (sync j clock now (key_of m clock j.id))).2) ks k,
)

-- The entity of a picked key is healthy afterwards.
pub pick_available_key_healthy :
    (clock now : Time) (m : Manager) (ks : List PlatformKey) (session : String) (k : PlatformKey)
    → (pick_available_key clock now m ks session).1 ≡ picked k
    → (key_of (pick_available_key clock now m ks session).0 clock k.id).0.state ≡ healthy
unfolding pick_available_key
pick_available_key_healthy clock now m ks session k h =
    scan_keys_healthy clock now
      (record m { key_cursors = (turn_order m now session (sort_stable index_less ks)).1 }) 0
      (turn_order m now session (sort_stable index_less ks)).0 k h
