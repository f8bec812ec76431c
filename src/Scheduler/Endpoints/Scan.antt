-- ===== src/Scheduler/Endpoints/Scan.antt =====
-- internal/scheduler/scheduler.go: the scan of PickAvailable against a scan that changes no state.
use api_gateway.Prelude.{
  ◌≡◌, refl, ◌∙◌, Bool, false, ◌&&◌, some, List, [], ◌∷◌, arith, if◌then◌else◌, ℤ, eq_ℤ_iff, int_eq,
  get, get-put, Option-cases, Bool-cases, inl, inr,
}
use api_gateway.Clock.{Time}
use api_gateway.Formats.{RapiRow}
use api_gateway.Rapi.{Rapi}
use api_gateway.Rapi.Calls.{pickable}
use api_gateway.Rapi.Backoff.{IsSane}
use api_gateway.Rapi.Invariant.{Inv, new_rapi-Inv}
use api_gateway.Rapi.Recovery.{is_ready, is_waiting, pickable_lem, pickable_time, pickable_refused}
use api_gateway.Scheduler.Manager.{Manager, rapi_of, set_rapi}
use api_gateway.Scheduler.Scanning.{sooner, first_row}
use api_gateway.Scheduler.Endpoints.{scan_rows}

-- Every endpoint entity of the manager satisfies its invariant, and so will those made later.
pub record IsValid (m : Manager) : Type 0 where
  pub sane : IsSane m.ecfg
  pub entities : (id : ℤ) (r : Rapi) → get id m.rapis ≡ some r → Inv r

pub rapi_of-Inv : (m : Manager) (clock : Time) (id : ℤ) → IsValid m → Inv (rapi_of m clock id)
unfolding rapi_of
rapi_of-Inv m clock id v = elim (Option-cases (get id m.rapis)) [
  | inl e ↦ rw e (new_rapi-Inv id m.ecfg m.has_store clock v.sane)
  | inr (r, e) ↦ rw e (v.entities id r e)
]

-- Storing the entity that an id has already changes no entity.
rapi_of-set_same :
    (m : Manager) (clock : Time) (id j : ℤ)
    → rapi_of (set_rapi id (rapi_of m clock id) m) clock j ≡ rapi_of m clock j
unfolding rapi_of
rapi_of-set_same m clock id j =
    ground (arith, eq_ℤ_iff id j, get-put id j (rapi_of m clock id) m.rapis)

-- A row that is enabled and available and whose entity is healthy or at the end of its cooldown.
unfoldable pub serves : Time → Time → Manager → RapiRow → Bool
serves clock now m r = r.enabled && r.available && is_ready (rapi_of m clock r.id) now

-- When the timer of an enabled and available row runs out whose entity is in a cooldown; zero for any other.
unfoldable pub recovers_at : Time → Time → Manager → RapiRow → Time
recovers_at clock now m r =
    if r.enabled && r.available && is_waiting (rapi_of m clock r.id) now
    then (rapi_of m clock r.id).0.wake_at
    else 0

set_refused :
    (m : Manager) (clock now : Time) (id j : ℤ)
    → Inv (rapi_of m clock id)
    → (pickable clock now (rapi_of m clock id)).1 ≡ false
    → rapi_of (set_rapi id (pickable clock now (rapi_of m clock id)).0 m) clock j
      ≡ rapi_of m clock j
set_refused m clock now id j v h =
    rw ((pickable_refused clock now (rapi_of m clock id) v h).0) (rapi_of-set_same m clock id j)

module _ (clock now : Time) (m : Manager) (v : IsValid m) where
  scan_from :
      (m' : Manager) (next : Time) (rs : List RapiRow)
      → ((j : ℤ) → rapi_of m' clock j ≡ rapi_of m clock j)
      → (scan_rows clock now m' next rs).1
        ≡ first_row (serves clock now m) (recovers_at clock now m) next rs
  unfolding scan_rows first_row serves recovers_at
  scan_from m' next [] same = refl
  scan_from m' next (r ∷ rs) same =
      let l = pickable_lem clock now (rapi_of m clock r.id) (rapi_of-Inv m clock r.id v) in
      let w = pickable_time clock now (rapi_of m clock r.id) (rapi_of-Inv m clock r.id v) in
      elim (Bool-cases (r.enabled && r.available)) [
        | inr off ↦ ground (arith, off, scan_from m' next rs same)
        | inl on ↦ elim (Bool-cases (pickable clock now (rapi_of m clock r.id)).1) [
          | inl good ↦ ground (arith, on, good, same r.id, l.0)
          | inr bad ↦ ground (
            arith,
            on,
            bad,
            same r.id,
            l.0,
            w,
            scan_from (set_rapi r.id (pickable clock now (rapi_of m' clock r.id)).0 m')
                (sooner next (recovers_at clock now m r)) rs
                (λ j.
                  set_refused m' clock now r.id j (rw (same r.id) (rapi_of-Inv m clock r.id v))
                    (rw (same r.id) bad)
                  ∙ same j),
          )
        ]
      ]

-- The scan gives what a scan gives that changes no entity on its way, also in a manager with other counters.
pub scan_rows-first_row :
    (clock now : Time) (m m' : Manager) (next : Time) (rs : List RapiRow)
    → IsValid m
    → ((j : ℤ) → rapi_of m' clock j ≡ rapi_of m clock j)
    → (scan_rows clock now m' next rs).1
      ≡ first_row (serves clock now m) (recovers_at clock now m) next rs
scan_rows-first_row clock now m m' next rs v same = scan_from clock now m v m' next rs same
