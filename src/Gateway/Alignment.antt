-- ===== src/Gateway/Alignment.antt =====
-- internal/gateway/gateway.go: what is left of an alignment after the caller reports the pool again.
use api_gateway.Prelude.{
  ◌+◌, ◌≡◌, refl, ap, ◌∙◌, true, false, ◌&&◌, ◌||◌, List, [], ◌∷◌, String, arith, ℤ, Bool-cases,
  Option-cases, inl, inr,
}
use api_gateway.Clock.{Time, add, is_zero}
use api_gateway.Host.{Library}
use api_gateway.Entity.{PlatformKey, healthy, cooling, eq_state, keys_hard_dead}
use api_gateway.Formats.{RapiRow}
use api_gateway.Fsm.{set_timer}
use api_gateway.Rapi.{Rapi, session_cooldown}
use api_gateway.Rapi.Calls as RapiCalls
use api_gateway.Rapi.Twice.{soft_loss}
use api_gateway.Scheduler.Manager as Scheduler
use api_gateway.Scheduler.Manager.{Manager, rapi_of, set_rapi}
use api_gateway.Scheduler.Pool as SchedulerPool
use api_gateway.Scheduler.Pool.{align_keys, align_keys-rapi_of, rapi_of-set_self}
use api_gateway.Gateway.{Gateway, Notice, is_blocked, filter_blocked_keys, blocked_reasons, notify}
use api_gateway.Gateway.Blocks.{is_blocked-AgreesAt, filter_blocked_keys_lem}
use api_gateway.Gateway.Pool.{
  is_auto_discovered, verdict, handle_all_keys_unavailable, mark_pool_exhausted, positive_ids,
}

blocked_reasons-scheduler :
    (now : Time) (r : ℤ) (ks : List PlatformKey) (g : Gateway)
    → (blocked_reasons now r ks g).0.scheduler ≡ g.scheduler
unfolding blocked_reasons
blocked_reasons-scheduler now r [] g = refl
blocked_reasons-scheduler now r (k ∷ ks) g =
    let ih = blocked_reasons-scheduler now r ks (is_blocked now k.id r g).0 in
    let a = is_blocked-AgreesAt now k.id r g in
    elim (Option-cases (is_blocked now k.id r g).1) [
      | inl e ↦ rw (e, blocked_reasons) (ih ∙ a.schedulers)
      | inr (s, e) ↦ rw (e, blocked_reasons) (ih ∙ a.schedulers)
    ]

notify-scheduler : (n : Notice) (g : Gateway) → (notify n g).scheduler ≡ g.scheduler
unfolding notify
notify-scheduler n g = ground arith

-- For a model that was not discovered, the scheduler gets the report of a pool that is lost for now.
handle_all_keys_unavailable_soft :
    (lib : Library) (clock : Time) (rapi : RapiRow) (g : Gateway)
    → is_auto_discovered lib rapi.source ≡ false
    → (reason : String) × ((handle_all_keys_unavailable lib clock rapi g).scheduler
        ≡ (Scheduler.mark_all_keys_unavailable clock rapi.id false reason g.scheduler).0)
unfolding handle_all_keys_unavailable
handle_all_keys_unavailable_soft lib clock rapi g manual =
    let b = blocked_reasons clock rapi.id rapi.keys g in
    let f = filter_blocked_keys clock rapi.id rapi.keys b.0 in
    let v = verdict b.1 f.1 (keys_hard_dead f.1 clock) in
    let same : f.0.scheduler ≡ g.scheduler =
      (filter_blocked_keys_lem clock rapi.id rapi.keys b.0).0.schedulers
      ∙ blocked_reasons-scheduler clock rapi.id rapi.keys g in
    let soft : (v.0 && is_auto_discovered lib rapi.source) ≡ false = rw manual (ground arith) in
    let r = Scheduler.mark_all_keys_unavailable clock rapi.id false v.1 g.scheduler in
    (
      v.1,
      elim (Bool-cases r.1) [
        | inl e ↦ rw (soft, same, e, handle_all_keys_unavailable) (notify-scheduler _ _)
        | inr e ↦ rw (soft, same, e, handle_all_keys_unavailable) refl
      ],
    )

align_still :
    (at : Time) (r : Rapi)
    → r.0.state ≡ cooling
    → let s = RapiCalls.align_cooldown_to at r in (s.0.state ≡ cooling) × (s.1 ≡ r.1)
unfolding RapiCalls.align_cooldown_to set_timer
align_still at (m, o) h = elim (Bool-cases (is_zero at)) [
  | inl e ↦ rw e (h, refl)
  | inr e ↦ rw (e, h) (refl, refl)
]

twice_reported :
    (clock : Time) (id : ℤ) (ids : List ℤ) (at : Time) (first second : String) (m : Manager)
    → is_zero at ≡ false
    → (eq_state (rapi_of m clock id).0.state healthy
        || eq_state (rapi_of m clock id).0.state cooling)
      ≡ true
    → let before = rapi_of m clock id in
      let m1 = (SchedulerPool.mark_pool_exhausted clock id ids at first m).0 in
      let m2 = (Scheduler.mark_all_keys_unavailable clock id false second m1).0 in
      (rapi_of m2 clock id).0.wake_at
      ≡ add clock (session_cooldown before.1.cfg false (before.1.consecutive_failures + 2))
unfolding SchedulerPool.mark_pool_exhausted Scheduler.mark_all_keys_unavailable
twice_reported clock id ids at first second m z h =
    let m0 = align_keys at ids m in
    let same = align_keys-rapi_of at ids m clock id in
    let r0 = rapi_of m clock id in
    let lost = (RapiCalls.on_all_keys_unavailable clock false first r0).0 in
    let s = soft_loss clock first r0 h in
    let r1 = RapiCalls.align_cooldown_to at lost in
    let a = align_still at lost s.0 in
    let m1 = set_rapi id r1 m0 in
    let here = rapi_of-set_self m0 clock id r1 in
    let t = soft_loss clock second r1 (rw a.0 (ground arith)) in
    rw
      (
        z,
        same,
        here,
        rapi_of-set_self m1 clock id (RapiCalls.on_all_keys_unavailable clock false second r1).0,
      )
      (t.1 ∙ rw (a.1, s.2, s.3) (ground arith))

pool_scheduler :
    (lib : Library) (clock : Time) (rapi : RapiRow) (keys : List PlatformKey) (at : Time)
    (g : Gateway)
    → is_zero at ≡ false
    → (mark_pool_exhausted lib clock rapi keys at g).scheduler
      ≡ (SchedulerPool.mark_pool_exhausted clock rapi.id
          (positive_ids keys)
          at
          "key pool exhausted (all cooling)"
          g.scheduler).0
unfolding mark_pool_exhausted
pool_scheduler lib clock rapi keys at g z = rw z refl

-- An endpoint, healthy or cooling, of a model that was not discovered, whose pool tryKeyForRAPI finds
-- exhausted with a time of recovery, and which its caller then reports with no key left, as it always does: the
-- endpoint cools down for the backoff of two more failures in a row, whatever the time of recovery was to
-- which its pool was aligned.
pub mark_pool_exhausted-handle_all_keys_unavailable :
    (lib : Library) (clock : Time) (rapi : RapiRow) (keys : List PlatformKey) (at : Time)
    (g : Gateway)
    → is_zero at ≡ false
    → is_auto_discovered lib rapi.source ≡ false
    → (eq_state (rapi_of g.scheduler clock rapi.id).0.state healthy
        || eq_state (rapi_of g.scheduler clock rapi.id).0.state cooling)
      ≡ true
    → let before = rapi_of g.scheduler clock rapi.id in
      let g' =
        handle_all_keys_unavailable lib clock rapi (mark_pool_exhausted lib clock rapi keys at g) in
      (rapi_of g'.scheduler clock rapi.id).0.wake_at
      ≡ add clock (session_cooldown before.1.cfg false (before.1.consecutive_failures + 2))
mark_pool_exhausted-handle_all_keys_unavailable lib clock rapi keys at g z manual state =
    let g1 = mark_pool_exhausted lib clock rapi keys at g in
    let soft = handle_all_keys_unavailable_soft lib clock rapi g1 manual in
    let ids = positive_ids keys in
    ap (λ (m : Manager). (rapi_of m clock rapi.id).0.wake_at)
      (soft.1
        ∙ ap (λ m. (Scheduler.mark_all_keys_unavailable clock rapi.id false soft.0 m).0)
            (pool_scheduler lib clock rapi keys at g z))
    ∙ twice_reported clock rapi.id ids at "key pool exhausted (all cooling)" soft.0 g.scheduler z
        state
