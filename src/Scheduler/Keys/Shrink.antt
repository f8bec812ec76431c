-- ===== src/Scheduler/Keys/Shrink.antt =====
-- internal/scheduler/scheduler.go: which keys can serve after a pick.
use mathlib.Core.List.{Mem, mem-cons_self, mem-cons_of_mem}
use mathlib.Core.List.Perm
use mathlib.Core.Logic.{∥∥₁_elim}
use api_gateway.Prelude.{
  ◌≡◌, inl, inr, subst, true, ◌&&◌, List, [], ◌∷◌, String, arith, eq_ℤ, eq_ℤ_iff, Bool-cases,
}
use api_gateway.Clock.{Time}
use api_gateway.Entity.{PlatformKey, key_row_usable}
use api_gateway.Key.Calls.{sync, pickable}
use api_gateway.Key.Sync.{is_ready}
use api_gateway.Key.Refusal.{refused_unready}
use api_gateway.Scheduler.Manager.{Manager, key_of, set_key}
use api_gateway.Scheduler.Scanning.{sooner}
use api_gateway.Scheduler.Sorting.{sort_stable}
use api_gateway.Scheduler.Keys.{scan_keys, turn_order, index_less, pick_available_key}
use api_gateway.Scheduler.Keys.Usable.{key_of-Inv, key_of-set, serves, order-perm}
use api_gateway.Scheduler.Reachable.{IsValid, pick_key}

-- A row of a list with the id of a given one is that one.
abbrev pub Apart : PlatformKey → List PlatformKey → Type 0
Apart j ks = (k : PlatformKey) → Mem k ks → eq_ℤ k.id j.id ≡ true → ∥ k ≡ j ∥₁

tried_lem :
    (now : Time) (m : Manager) (j : PlatformKey)
    → serves now now (set_key j.id (pickable now now (sync j now now (key_of m now j.id))).0 m) j
      ≡ (key_row_usable j now
          && is_ready (pickable now now (sync j now now (key_of m now j.id))).0 now)
unfolding serves
tried_lem now m j = ground (
  arith,
  eq_ℤ_iff j.id j.id,
  key_of-set m now j.id j.id (pickable now now (sync j now now (key_of m now j.id))).0,
)

serves-tried :
    (now : Time) (m : Manager) (k j : PlatformKey)
    → IsValid m
    → (eq_ℤ k.id j.id ≡ true → ∥ k ≡ j ∥₁)
    → serves now now (set_key k.id (pickable now now (sync k now now (key_of m now k.id))).0 m) j
      ≡ true
    → serves now now m j ≡ true
unfolding serves
serves-tried now m k j v same h = elim (Bool-cases (eq_ℤ k.id j.id)) [
  | inr d ↦ ground (
    arith,
    d,
    h,
    key_of-set m now k.id j.id (pickable now now (sync k now now (key_of m now k.id))).0,
  )
  | inl d ↦ ∥∥₁_elim (same d) (hlevel) (λ e. elim (Bool-cases (serves now now m j)) [
    | inl good ↦ good
    | inr bad ↦ absurd (
        ground (
          arith,
          bad,
          tried_lem now m j,
          subst
              (λ i.
                serves now now
                  (set_key i.id (pickable now now (sync i now now (key_of m now i.id))).0 m) j
                ≡ true)
              e h,
          refused_unready j now (key_of m now j.id) (key_of-Inv m now j.id v.credentials),
        ))
  ])
]

scan_keys-serves :
    (now : Time) (m : Manager) (next : Time) (ks : List PlatformKey) (j : PlatformKey)
    → IsValid m
    → Apart j ks
    → serves now now (scan_keys now now m next ks).0 j ≡ true
    → serves now now m j ≡ true
unfolding scan_keys
scan_keys-serves now m next [] j v d h = h
scan_keys-serves now m next (k ∷ ks) j v d h =
    let p = pickable now now (sync k now now (key_of m now k.id)) in
    elim (Bool-cases (pickable now now (sync k now now (key_of m now k.id))).1) [
      | inl e ↦ serves-tried now m k j v (d k mem-cons_self) (ground (arith, e, h))
      | inr e ↦ serves-tried now m k j v (d k mem-cons_self) (
          scan_keys-serves now (set_key k.id p.0 m) (sooner next p.2) ks j (pick_key k now now m v)
            (λ i h. d i (mem-cons_of_mem k h)) (ground (arith, e, h)))
    ]

-- A key that a pick leaves able to serve was able to before it.
pub pick_available_key-serves :
    (now : Time) (m : Manager) (ks : List PlatformKey) (session : String) (j : PlatformKey)
    → IsValid m
    → Apart j ks
    → serves now now (pick_available_key now now m ks session).0 j ≡ true
    → serves now now m j ≡ true
unfolding pick_available_key serves key_of
pick_available_key-serves now m ks session j v d h =
    let turn = turn_order m now session (sort_stable index_less ks) in
    scan_keys-serves now (record m { key_cursors = turn.1 }) 0 turn.0 j
      (record {
        endpoints = record { sane = v.endpoints.sane; entities = v.endpoints.entities };
        credentials = record { cooled = v.credentials.cooled; entities = v.credentials.entities };
      })
      (λ k i. d k ((Perm.mem_iff (order-perm m now session ks)).0 i)) h
