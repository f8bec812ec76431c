-- ===== src/Rapi/Recovery.antt =====
-- internal/entity/rapi.go: when an endpoint comes back into service.
use api_gateway.Prelude.{
  ◌≡◌, ◌≢◌, ◌<◌, ◌⊎◌, Bool, true, false, not, ◌&&◌, ◌||◌, Option, none, some, ◌∷◌, String,
  if◌then◌else◌, arith,
}
use api_gateway.Clock.{Time, is_zero, after}
use api_gateway.Fsm.{set_timer}
use api_gateway.Entity.{
  healthy, cooling, platform_failed, invalidated, Event, success, session_failure, platform_failure,
  invalidate, revalidate, all_keys_soft, all_keys_hard, timer_expired, Payload, all_keys, eq_state,
  set_rapi_unavailable,
}
use api_gateway.Rapi.{
  Rapi, fire_rapi, advance_rapi, on_all_keys_hard, on_all_keys_soft, fail_session, on_timer_expired,
}
use api_gateway.Rapi.Edges.{follow, fire_rapi_lem, advance_rapi_lem}
use api_gateway.Rapi.Calls
use api_gateway.Rapi.Calls.{pickable, align_cooldown_to}
use api_gateway.Rapi.Invariant.{
  Inv, Step, succeeds, fails, fails_on_platform, loses_keys, invalidates, revalidates, advances,
  asks, aligns,
}

-- Healthy, or in a cooldown whose timer has run out.
unfoldable pub is_ready : Rapi → Time → Bool
is_ready (m, o) now =
    eq_state m.state healthy || (not (eq_state m.state invalidated) && not (after m.wake_at now))

-- Of the endpoints that satisfy the invariant, `Pickable` says yes exactly to one that is healthy or whose cooldown is over at that time,
-- and such an endpoint is healthy afterwards: every cooldown ends in service.
pub pickable_lem :
    (clock now : Time) (r : Rapi)
    → Inv r
    → ((pickable clock now r).1 ≡ is_ready r now)
      × ((is_ready r now ≡ false) ⊎ ((pickable clock now r).0.0.state ≡ healthy))
unfolding pickable is_ready follow on_timer_expired set_timer
pickable_lem clock now r v = ground (
  arith,
  advance_rapi_lem clock now r,
  fire_rapi_lem clock timer_expired none (set_timer 0 r.0, r.1),
)

-- What `Pickable` refuses keeps its state, and the time that it gives, if any, is when its timer
-- runs out.
pub pickable_refused :
    (clock now : Time) (r : Rapi)
    → Inv r
    → (pickable clock now r).1 ≡ false
    → ((pickable clock now r).0 ≡ r)
      × ((pickable clock now r).2 ≡ (if eq_state r.0.state invalidated then 0 else r.0.wake_at))
unfolding pickable follow on_timer_expired set_timer
pickable_refused clock now r v h = ground (
  arith,
  advance_rapi_lem clock now r,
  fire_rapi_lem clock timer_expired none (set_timer 0 r.0, r.1),
)

-- In a cooldown, of whichever state, whose timer has not run out.
unfoldable pub is_waiting : Rapi → Time → Bool
is_waiting (m, o) now =
    (eq_state m.state cooling || eq_state m.state platform_failed) && after m.wake_at now

-- The time that `Pickable` gives is that of the timer of an endpoint in a cooldown, and otherwise zero.
pub pickable_time :
    (clock now : Time) (r : Rapi)
    → Inv r
    → (pickable clock now r).2 ≡ (if is_waiting r now then r.0.wake_at else 0)
unfolding pickable is_waiting
pickable_time clock now r v = ground arith

-- Whether a call is `Revalidate`.
abbrev pub revives : {r s : Rapi} → Step r s → Bool
revives (revalidates clock) = true
revives _ = false

pub data Frozen (r : Rapi) : Rapi → Type 0 where
  here : Frozen r r
  also : {s t : Rapi} → Frozen r s → (c : Step s t) → revives c ≡ false → Frozen r t

fire_invalidated :
    (clock : Time) (ev : Event) (p : Option Payload) (r : Rapi)
    → r.0.state ≡ invalidated
    → ev ≢ revalidate
    → (fire_rapi clock ev p r).0 ≡ r
unfolding follow
fire_invalidated clock ev p r e n = rw (fire_rapi_lem clock ev p r) (ground arith)

Step-frozen :
    {r s : Rapi} (c : Step r s)
    → revives c ≡ false
    → r.0.state ≡ invalidated
    → s.0.state ≡ invalidated
unfolding Calls.on_success Calls.on_session_failure Calls.on_platform_failure Calls.invalidate_rapi
    Calls.on_all_keys_unavailable pickable align_cooldown_to set_timer
Step-frozen {r} (succeeds clock) n e = ground (arith, fire_invalidated clock success none r e)
Step-frozen {r} (fails clock reason retry_at is_timeout) n e =
    rw (fire_invalidated clock session_failure _ r e (λ q. cc)) e
Step-frozen {r} (fails_on_platform clock reason) n e =
    rw (fire_invalidated clock platform_failure _ r e (λ q. cc)) e
Step-frozen {r} (loses_keys clock true reason) n e =
    rw (fire_invalidated clock all_keys_hard _ r e (λ q. cc)) e
Step-frozen {r} (loses_keys clock false reason) n e =
    rw (fire_invalidated clock all_keys_soft _ r e (λ q. cc)) e
Step-frozen {r} (invalidates clock) n e = ground (arith, fire_invalidated clock invalidate none r e)
Step-frozen {r} (revalidates clock) n e = cc
Step-frozen {r} (advances clock now) n e = ground (
  arith,
  advance_rapi_lem clock now r,
  fire_invalidated clock timer_expired none (set_timer 0 r.0, r.1) e,
)
Step-frozen {r} (asks clock now) n e = ground arith
Step-frozen {r} (aligns at) n e = ground arith

Frozen-invalidated : {r s : Rapi} → Frozen r s → r.0.state ≡ invalidated → s.0.state ≡ invalidated
Frozen-invalidated here e = e
Frozen-invalidated (also f c n) e = Step-frozen c n (Frozen-invalidated f e)

-- An invalidated endpoint is refused at every time after any calls but `Revalidate`.
pub invalidated_refused :
    {r s : Rapi} (clock now : Time)
    → Frozen r s
    → r.0.state ≡ invalidated
    → (pickable clock now s).1 ≡ false
unfolding pickable
invalidated_refused {r} {s} clock now f e = let h = Frozen-invalidated f e in ground arith

-- The code that reports a dead pool, on an endpoint that satisfies the invariant: it says `first` on the call that takes the endpoint out of
-- service and on no other, and exactly then it records the endpoint as unavailable in the store.
pub on_all_keys_unavailable_first :
    (clock : Time) (hard : Bool) (reason : String) (r : Rapi)
    → Inv r
    → let (s, first) = Calls.on_all_keys_unavailable clock hard reason r in
      (first ≡ (hard && not (eq_state r.0.state invalidated)))
      × (s.1.calls ≡ (
          if first && r.1.has_store
          then set_rapi_unavailable r.1.id false reason ∷ r.1.calls
          else r.1.calls))
unfolding Calls.on_all_keys_unavailable follow on_all_keys_hard on_all_keys_soft fail_session
on_all_keys_unavailable_first clock true reason r v = ground (
  arith,
  fire_rapi_lem clock all_keys_hard
      (some (all_keys (record { hard = true; reason = reason; pool_recover_at = 0 }))) r,
)
on_all_keys_unavailable_first clock false reason r v = ground (
  arith,
  fire_rapi_lem clock all_keys_soft
      (some (all_keys (record { hard = false; reason = reason; pool_recover_at = 0 }))) r,
)

-- A soft report and then an alignment: a healthy or cooling endpoint cools until the aligned time.
pub soft_aligned :
    (clock at : Time) (reason : String) (r : Rapi)
    → is_zero at ≡ false
    → (eq_state r.0.state healthy || eq_state r.0.state cooling) ≡ true
    → let s = Calls.align_cooldown_to at (Calls.on_all_keys_unavailable clock false reason r).0 in
      (s.0.state ≡ cooling) × (s.0.wake_at ≡ at)
unfolding Calls.align_cooldown_to Calls.on_all_keys_unavailable follow on_all_keys_soft fail_session
    set_timer
soft_aligned clock at reason r z h = ground (
  arith,
  fire_rapi_lem clock all_keys_soft
      (some (all_keys (record { hard = false; reason = reason; pool_recover_at = 0 }))) r,
)

-- After `Advance` an endpoint is healthy, invalidated, or in a cooldown that is not over.
pub advance_rapi_settled :
    (clock now : Time) (r : Rapi)
    → Inv r
    → let s = advance_rapi clock now r in
      (s.0.state ≡ healthy) ⊎ (s.0.state ≡ invalidated) ⊎ (now < s.0.wake_at)
unfolding follow on_timer_expired set_timer
advance_rapi_settled clock now r v = ground (
  arith,
  advance_rapi_lem clock now r,
  fire_rapi_lem clock timer_expired none (set_timer 0 r.0, r.1),
)
