-- ===== src/Scheduler/Reachable.antt =====
-- internal/scheduler/scheduler.go: what holds of the Manager after any sequence of its calls.
pub mod Runs
use api_gateway.Prelude.{
  ◌≡◌, sym, subst, Bool, true, false, not, ◌&&◌, ◌||◌, Option, none, some, List, [], ◌∷◌, String,
  arith, if◌then◌else◌, ℤ, eq_ℤ, eq_ℤ_iff, int_eq, is_positive, get, put, delete, get-put,
  get-delete, Option-cases, Bool-cases, inl, inr,
}
use api_gateway.Clock.{Time, is_zero}
use api_gateway.Key.{Key, advance_key}
use api_gateway.Key.Calls as KeyCalls
use api_gateway.Key.Invariant as KeyInvariant
use api_gateway.Rapi.{Rapi, advance_rapi}
use api_gateway.Rapi.Calls as RapiCalls
use api_gateway.Rapi.Invariant as RapiInvariant
use api_gateway.Host.{Host}
use api_gateway.Formats.{RapiRow}
use api_gateway.Entity.{PlatformKey}
use api_gateway.Scheduler.Scanning.{sooner}
use api_gateway.Scheduler.Sorting.{sort_stable}
use api_gateway.Scheduler.Manager
use api_gateway.Scheduler.Manager.{Manager, set_rapi, set_key, rapi_of, key_of}
use api_gateway.Scheduler.Endpoints.{scan_rows, row_less, pick_available}
use api_gateway.Scheduler.Endpoints.Scan as Scan
use api_gateway.Scheduler.Keys.{scan_keys, turn_order, index_less, pick_available_key}
use api_gateway.Scheduler.Keys.Usable as Usable
use api_gateway.Scheduler.Pool.{align_key, align_keys, mark_pool_exhausted}
use api_gateway.Scheduler.Recovery.{map_values, advance_all}

-- Every entity that the manager holds or will make satisfies its invariant.
pub record IsValid (m : Manager) : Type 0 where
  pub endpoints : Scan.IsValid m
  pub credentials : Usable.IsValid m

set_rapi-IsValid :
    (id : ℤ) (r : Rapi) (m : Manager) → RapiInvariant.Inv r → IsValid m → IsValid (set_rapi id r m)
set_rapi-IsValid id r m i v = record {
  endpoints = record { sane = v.endpoints.sane; entities = kept };
  credentials = record { cooled = v.credentials.cooled; entities = v.credentials.entities };
}
  where
    kept : (j : ℤ) (s : Rapi) → get j (put id r m.rapis) ≡ some s → RapiInvariant.Inv s
    kept j s h = ground (arith, get-put id j r m.rapis, v.endpoints.entities j s)

pub set_key-IsValid :
    (id : ℤ) (k : Key) (m : Manager) → KeyInvariant.Inv k → IsValid m → IsValid (set_key id k m)
set_key-IsValid id k m i v = record {
  endpoints = record { sane = v.endpoints.sane; entities = v.endpoints.entities };
  credentials = record { cooled = v.credentials.cooled; entities = kept };
}
  where
    kept : (j : ℤ) (s : Key) → get j (put id k m.keys) ≡ some s → KeyInvariant.Inv s
    kept j s h = ground (arith, get-put id j k m.keys, v.credentials.entities j s)

set_rapi-Step :
    (clock : Time) (id : ℤ) {s : Rapi} (m : Manager)
    → RapiInvariant.Step (rapi_of m clock id) s
    → IsValid m
    → IsValid (set_rapi id s m)
set_rapi-Step clock id m c v =
    set_rapi-IsValid id _ m (RapiInvariant.Step-Inv c (Scan.rapi_of-Inv m clock id v.endpoints)) v

set_key-Step :
    (clock : Time) (id : ℤ) {s : Key} (m : Manager)
    → KeyInvariant.Step (key_of m clock id) s
    → IsValid m
    → IsValid (set_key id s m)
set_key-Step clock id m c v =
    set_key-IsValid id _ m (KeyInvariant.Step-Inv c (Usable.key_of-Inv m clock id v.credentials)) v

scan_rows-IsValid :
    (clock now : Time) (m : Manager) (next : Time) (rows : List RapiRow)
    → IsValid m
    → IsValid (scan_rows clock now m next rows).0
unfolding scan_rows
scan_rows-IsValid clock now m next [] v = v
scan_rows-IsValid clock now m next (r ∷ rs) v = ground (
  arith,
  v,
  scan_rows-IsValid clock now m next rs v,
  set_rapi-Step clock r.id m (RapiInvariant.Step.asks clock now) v,
  scan_rows-IsValid clock now
      (set_rapi r.id (RapiCalls.pickable clock now (rapi_of m clock r.id)).0 m)
      (sooner next (RapiCalls.pickable clock now (rapi_of m clock r.id)).2) rs
      (set_rapi-Step clock r.id m (RapiInvariant.Step.asks clock now) v),
)

pub pick_key :
    (row : PlatformKey) (clock now : Time) (m : Manager)
    → IsValid m
    → IsValid (
        set_key row.id
          (KeyCalls.pickable clock now (KeyCalls.sync row clock now (key_of m clock row.id))).0
          m)
pick_key row clock now m v =
    set_key-IsValid row.id _ m
      (KeyInvariant.Step-Inv (KeyInvariant.Step.asks clock now) (
        KeyInvariant.Step-Inv (KeyInvariant.Step.syncs row clock now)
          (Usable.key_of-Inv m clock row.id v.credentials)))
      v

scan_keys-IsValid :
    (clock now : Time) (m : Manager) (next : Time) (rows : List PlatformKey)
    → IsValid m
    → IsValid (scan_keys clock now m next rows).0
unfolding scan_keys
scan_keys-IsValid clock now m next [] v = v
scan_keys-IsValid clock now m next (k ∷ ks) v = ground (
  arith,
  pick_key k clock now m v,
  scan_keys-IsValid clock now
      (set_key k.id
        (KeyCalls.pickable clock now (KeyCalls.sync k clock now (key_of m clock k.id))).0 m)
      (sooner next
        (KeyCalls.pickable clock now (KeyCalls.sync k clock now (key_of m clock k.id))).2)
      ks (pick_key k clock now m v),
)

align_key-IsValid : (at : Time) (id : ℤ) (m : Manager) → IsValid m → IsValid (align_key at id m)
unfolding align_key
align_key-IsValid at id m v = elim (Option-cases (get id m.keys)) [
  | inl e ↦ rw (e, align_key) v
  | inr (k, e) ↦
      rw (e, align_key)
        (set_key-IsValid id (KeyCalls.align_cooldown_to at k) m
          (KeyInvariant.align_cooldown_to-Inv at k (v.credentials.entities id k e)) v)
]

align_keys-IsValid :
    (at : Time) (ids : List ℤ) (m : Manager) → IsValid m → IsValid (align_keys at ids m)
unfolding align_keys
align_keys-IsValid at [] m v = v
align_keys-IsValid at (id ∷ ids) m v =
    align_keys-IsValid at ids (align_key at id m) (align_key-IsValid at id m v)

mark_pool_exhausted-IsValid :
    (clock : Time) (id : ℤ) (ids : List ℤ) (at : Time) (reason : String) (m : Manager)
    → IsValid m
    → IsValid (mark_pool_exhausted clock id ids at reason m).0
unfolding mark_pool_exhausted
mark_pool_exhausted-IsValid clock id ids at reason m v = elim (Bool-cases (is_zero at)) [
  | inl e ↦ rw e v
  | inr e ↦
      let w = align_keys-IsValid at ids m v in
      rw e (
        set_rapi-IsValid id _ (align_keys at ids m)
          (RapiInvariant.align_cooldown_to-Inv at _ (
            RapiInvariant.Step-Inv (RapiInvariant.Step.loses_keys clock false reason)
              (Scan.rapi_of-Inv (align_keys at ids m) clock id w.endpoints)))
          w)
]

mark_success-IsValid :
    (clock : Time) (id : ℤ) (m : Manager) → IsValid m → IsValid (Manager.mark_success clock id m)
unfolding Manager.mark_success
mark_success-IsValid clock id m v = elim (Option-cases (get id m.rapis)) [
  | inl e ↦ rw (e, Manager.mark_success) v
  | inr (r, e) ↦
      rw (e, Manager.mark_success)
        (set_rapi-IsValid id _ m
          (RapiInvariant.Step-Inv (RapiInvariant.Step.succeeds clock) (v.endpoints.entities id r e))
          v)
]

remove_key-IsValid : (id : ℤ) (m : Manager) → IsValid m → IsValid (Manager.remove_key id m)
unfolding Manager.remove_key
remove_key-IsValid id m v = record {
  endpoints = record { sane = v.endpoints.sane; entities = v.endpoints.entities };
  credentials = record { cooled = v.credentials.cooled; entities = kept };
}
  where
    kept : (j : ℤ) (s : Key) → get j (delete id m.keys) ≡ some s → KeyInvariant.Inv s
    kept j s h = ground (arith, get-delete id j m.keys, v.credentials.entities j s)

get-map_values :
    {V : Type 0} (f : V → V) (id : ℤ) (m : List (ℤ × V)) (v : V)
    → get id (map_values f m) ≡ some v
    → (w : V) × (get id m ≡ some w) × (v ≡ f w)
unfolding get map_values
get-map_values f id [] v h = cc
get-map_values f id ((j, w) ∷ m) v h = elim (Bool-cases (eq_ℤ j id)) [
  | inl e ↦ (w, ground (arith, e), ground (arith, e, h))
  | inr e ↦
      let r = get-map_values f id m v (ground (arith, e, h)) in (r.0, ground (arith, e, r.1), r.2)
]

advance_all-IsValid :
    (clock now : Time) (m : Manager) → IsValid m → IsValid (advance_all clock now m)
unfolding advance_all
advance_all-IsValid clock now m v = record {
  endpoints = record { sane = v.endpoints.sane; entities = rapis };
  credentials = record { cooled = v.credentials.cooled; entities = keys };
}
  where
    rapis :
        (id : ℤ) (r : Rapi)
        → get id (map_values (advance_rapi clock now) m.rapis) ≡ some r
        → RapiInvariant.Inv r
    rapis id r h =
        let w = get-map_values (advance_rapi clock now) id m.rapis r h in
        subst RapiInvariant.Inv (sym w.2)
          (RapiInvariant.advance_rapi-Inv clock now w.0 (v.endpoints.entities id w.0 w.1))

    keys :
        (id : ℤ) (k : Key)
        → get id (map_values (advance_key clock now) m.keys) ≡ some k
        → KeyInvariant.Inv k
    keys id k h =
        let w = get-map_values (advance_key clock now) id m.keys k h in
        subst KeyInvariant.Inv (sym w.2)
          (KeyInvariant.advance_key-Inv clock now w.0 (v.credentials.entities id w.0 w.1))
