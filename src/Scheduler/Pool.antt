-- ===== src/Scheduler/Pool.antt =====
-- internal/scheduler/scheduler.go: MarkPoolExhausted, which aligns a pool of cooling keys and its
-- endpoint to one time of recovery.
use api_gateway.Prelude.{
  ◌≡◌, refl, ◌∙◌, true, false, ◌||◌, Option, none, some, List, [], ◌∷◌, String, arith,
  if◌then◌else◌, ℤ, eq_ℤ, eq_ℤ_iff, int_eq, get, get-put, get-put_self, ap, Option-cases, inl, inr,
  Memᴰ,
}
use api_gateway.Clock.{Time, is_zero}
use api_gateway.Fsm.{set_timer}
use api_gateway.Entity.{healthy, cooling, eq_state}
use api_gateway.Key.{Key}
use api_gateway.Key.Calls as KeyCalls
use api_gateway.Rapi.{Rapi}
use api_gateway.Rapi.Recovery.{soft_aligned}
use api_gateway.Rapi.Calls as RapiCalls
use api_gateway.Scheduler.Manager.{Manager, rapi_of, set_rapi, set_key}

-- A key that has no entity is passed over.
unfoldable pub align_key : Time → ℤ → Manager → Manager
align_key at id m = elim (get id m.keys) [
  | none ↦ m
  | some k ↦ set_key id (KeyCalls.align_cooldown_to at k) m
]

unfoldable pub align_keys : Time → List ℤ → Manager → Manager
unfolding align_key
align_keys at [] m = m
align_keys at (id ∷ ids) m = align_keys at ids (align_key at id m)

unfoldable pub mark_pool_exhausted : Time → ℤ → List ℤ → Time → String → Manager → Manager × Time
unfolding align_keys rapi_of
mark_pool_exhausted clock id key_ids at reason m =
    if is_zero at
    then (m, 0)
    else let m' = align_keys at key_ids m in
      let r = (RapiCalls.on_all_keys_unavailable clock false reason (rapi_of m' clock id)).0 in
      (set_rapi id (RapiCalls.align_cooldown_to at r) m', at)

-- The time at which a cooling key recovers, `none` if there is no entity or it is not cooling.
abbrev pub cooling_until : Option Key → Option Time
cooling_until none = none
cooling_until (some k) = if eq_state k.0.state cooling then some k.0.wake_at else none

align_key-get :
    (at : Time) (id j : ℤ) (m : Manager)
    → get j (align_key at id m).keys ≡ (
        if eq_ℤ id j
        then elim (get j m.keys) [ none ↦ none | some k ↦ some (KeyCalls.align_cooldown_to at k) ]
        else get j m.keys)
unfolding align_key
align_key-get at id j m = elim (Option-cases (get id m.keys)) [
  | inl e ↦ rw (e, align_key) (ground (arith, e, eq_ℤ_iff id j))
  | inr (k, e) ↦
      rw (e, align_key)
        (ground (arith, e, eq_ℤ_iff id j, get-put id j (KeyCalls.align_cooldown_to at k) m.keys))
]

align_key_self :
    (at : Time) (id : ℤ) (m : Manager) (w : Time)
    → is_zero at ≡ false
    → cooling_until (get id m.keys) ≡ some w
    → cooling_until (get id (align_key at id m).keys) ≡ some at
unfolding KeyCalls.align_cooldown_to set_timer
align_key_self at id m w z h = ground (arith, align_key-get at id id m, eq_ℤ_iff id id)

-- A cooling key still cools after another is aligned, until the same time or the new one.
align_key_other :
    (at : Time) (id j : ℤ) (m : Manager) (w : Time)
    → is_zero at ≡ false
    → cooling_until (get j m.keys) ≡ some w
    → cooling_until (get j (align_key at id m).keys) ≡ some (if eq_ℤ id j then at else w)
unfolding KeyCalls.align_cooldown_to set_timer
align_key_other at id j m w z h = ground (arith, align_key-get at id j m)

align_keys_aligned :
    (at : Time) (ids : List ℤ) (j : ℤ) (m : Manager)
    → is_zero at ≡ false
    → cooling_until (get j m.keys) ≡ some at
    → cooling_until (get j (align_keys at ids m).keys) ≡ some at
unfolding align_keys
align_keys_aligned at [] j m z h = h
align_keys_aligned at (id ∷ ids) j m z h =
    align_keys_aligned at ids j (align_key at id m) z
      (ground (arith, align_key_other at id j m at z h))

align_keys_member :
    (at : Time) (ids : List ℤ) (j : ℤ) (m : Manager) (w : Time)
    → is_zero at ≡ false
    → Memᴰ j ids
    → cooling_until (get j m.keys) ≡ some w
    → cooling_until (get j (align_keys at ids m).keys) ≡ some at
unfolding align_keys
align_keys_member at [] j m w z h c = elim h [ ]
align_keys_member at (id ∷ ids) j m w z (Memᴰ.head e) c =
    align_keys_aligned at ids j (align_key at id m) z
      (ground (arith, align_key_other at id j m w z c, eq_ℤ_iff id j))
align_keys_member at (id ∷ ids) j m w z (Memᴰ.tail h) c =
    align_keys_member at ids j (align_key at id m) (if eq_ℤ id j then at else w) z h
      (align_key_other at id j m w z c)

align_key-rapi_of :
    (at : Time) (id : ℤ) (m : Manager) (clock : Time) (j : ℤ)
    → rapi_of (align_key at id m) clock j ≡ rapi_of m clock j
unfolding align_key rapi_of
align_key-rapi_of at id m clock j = elim (Option-cases (get id m.keys)) [
  | inl e ↦ rw (e, align_key) refl
  | inr (k, e) ↦ rw (e, align_key) refl
]

pub align_keys-rapi_of :
    (at : Time) (ids : List ℤ) (m : Manager) (clock : Time) (j : ℤ)
    → rapi_of (align_keys at ids m) clock j ≡ rapi_of m clock j
unfolding align_keys
align_keys-rapi_of at [] m clock j = refl
align_keys-rapi_of at (id ∷ ids) m clock j =
    align_keys-rapi_of at ids (align_key at id m) clock j ∙ align_key-rapi_of at id m clock j

pub rapi_of-set_self :
    (m : Manager) (clock : Time) (id : ℤ) (r : Rapi) → rapi_of (set_rapi id r m) clock id ≡ r
unfolding rapi_of
rapi_of-set_self m clock id r = rw (get-put_self id r m.rapis)

-- With a time of recovery, and an endpoint that is healthy or cooling, the whole pool recovers then: every
-- cooling key of the pool has its timer set to that time, and the endpoint cools down until that time.
pub mark_pool_exhausted_aligned :
    (clock : Time) (id : ℤ) (key_ids : List ℤ) (at : Time) (reason : String) (m : Manager) (j : ℤ)
    (w : Time)
    → is_zero at ≡ false
    → Memᴰ j key_ids
    → cooling_until (get j m.keys) ≡ some w
    → (eq_state (rapi_of m clock id).0.state healthy
        || eq_state (rapi_of m clock id).0.state cooling)
      ≡ true
    → let m' = (mark_pool_exhausted clock id key_ids at reason m).0 in
      (cooling_until (get j m'.keys) ≡ some at)
      × ((rapi_of m' clock id).0.state ≡ cooling)
      × ((rapi_of m' clock id).0.wake_at ≡ at)
unfolding mark_pool_exhausted
mark_pool_exhausted_aligned clock id key_ids at reason m j w z mem c h =
    let m' = align_keys at key_ids m in
    let same = align_keys-rapi_of at key_ids m clock id in
    let s = soft_aligned clock at reason (rapi_of m' clock id) z (rw same h) in
    let new =
      RapiCalls.align_cooldown_to at
        (RapiCalls.on_all_keys_unavailable clock false reason (rapi_of m' clock id)).0 in
    rw z (
      align_keys_member at key_ids j m w z mem c,
      ap (λ (r : Rapi). r.0.state) (rapi_of-set_self m' clock id new) ∙ s.0,
      ap (λ (r : Rapi). r.0.wake_at) (rapi_of-set_self m' clock id new) ∙ s.1,
    )
