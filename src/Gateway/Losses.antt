-- ===== src/Gateway/Losses.antt =====
-- internal/gateway/gateway.go: what a round of tryKeyForRAPI that does not return does to its key and to the
-- others.
use Prim.Native.String.{◌++◌ as ◌<>◌}
use api_gateway.Prelude.{
  ℕ, ◌≡◌, refl, Bool, true, false, not, ◌&&◌, ◌||◌, none, some, String, arith, leb, ◌==◌, ℤ, eq_ℤ,
  eq_ℤ_iff, put, get-put, Bool-cases, inl, inr, is_positive, int_eq,
}
use api_gateway.Clock.{Time, add}
use api_gateway.Host.{Library, Header}
use api_gateway.Entity.{
  PlatformKey, FailureScope, session_scope, system_scope, platform_scope, classify_failure, healthy,
  session_failure, platform_failure, session, SessionFailurePayload,
}
use api_gateway.Entity.Bodies.{is_recoverable_billing_error, is_capability_mismatch}
use api_gateway.Formats.{RapiRow}
use api_gateway.Key.{Key, fire_key}
use api_gateway.Key.Calls as KeyCalls
use api_gateway.Key.Sync.{is_ready}
use api_gateway.Key.Invariant.{fire_failed-Inv, fire_platform-Inv}
use api_gateway.Key.Refusal.{session_failure_unready, platform_failure_unready}
use api_gateway.Scheduler.Manager as Scheduler
use api_gateway.Scheduler.Manager.{Manager, key_of, set_key}
use api_gateway.Scheduler.Requests.{retry_at}
use api_gateway.Scheduler.Keys.Usable.{serves, key_of-set, key_of-Inv}
use api_gateway.Scheduler.Reachable.{IsValid, set_key-IsValid}
use api_gateway.Gateway.{
  Gateway, Notice, key_failed, key_cooling, pair, eq_pair_iff, pair_eq, notify, block_key_for_model,
}
use api_gateway.Gateway.Blocks.{blocked_at}
use api_gateway.Gateway.Attempt.{
  Reply, failed, answered, is_success, marked, fail_for_good, block_pair, handle_failure,
  handle_reply,
}

-- Whether a key of an endpoint can be tried at a time: the pair is not blocked and the key can be picked.
unfoldable pub live : Time → ℤ → Gateway → PlatformKey → Bool
live now rapi_id g k = not (blocked_at now k.id rapi_id g) && serves now now g.scheduler k

-- What a failed round does to the gateway.
pub record Loses (now : Time) (rapi_id : ℤ) (key : PlatformKey) (g h : Gateway) : Type 0 where
  pub ttl : h.block_ttl ≡ g.block_ttl
  pub valid : IsValid h.scheduler
  pub lost : live now rapi_id h key ≡ false
  pub rest :
      (j : PlatformKey) → eq_ℤ key.id j.id ≡ false → live now rapi_id h j ≡ live now rapi_id g j

set_key-serves :
    (now : Time) (m : Manager) (k : Key) (id : ℤ) (j : PlatformKey)
    → eq_ℤ id j.id ≡ false
    → serves now now (set_key id k m) j ≡ serves now now m j
unfolding serves
set_key-serves now m k id j h = ground (arith, h, key_of-set m now id j.id k)

module _ (now : Time) (rapi_id : ℤ) (key : PlatformKey) (g h : Gateway) where
  -- From the scheduler after the failure of the key's entity.
  lost_key :
      (k : Key)
      → IsValid (set_key key.id k g.scheduler)
      → serves now now (set_key key.id k g.scheduler) key ≡ false
      → h.scheduler ≡ set_key key.id k g.scheduler
      → h.blocks ≡ g.blocks
      → h.block_ttl ≡ g.block_ttl
      → Loses now rapi_id key g h
  unfolding live blocked_at
  lost_key k v unready s b t = record {
    ttl = t;
    valid = rw s v;
    lost = rw (s, unready) (ground arith);
    rest = λ j d. rw (s, b, set_key-serves now g.scheduler k key.id j d) refl;
  }

  lost_pair :
      (reason : String)
      → IsValid g.scheduler
      → is_positive g.block_ttl ≡ true
      → h.scheduler ≡ g.scheduler
      → h.blocks
        ≡ put
            (pair key.id rapi_id)
            (record { reason = reason; expires_at = add now g.block_ttl })
            g.blocks
      → h.block_ttl ≡ g.block_ttl
      → Loses now rapi_id key g h
  unfolding live blocked_at
  lost_pair reason v positive s b t = record {
    ttl = t;
    valid = rw s v;
    lost =
        rw (b, get-put (pair key.id rapi_id) (pair key.id rapi_id) _ g.blocks)
          (ground (arith, positive, eq_pair_iff (pair key.id rapi_id) (pair key.id rapi_id)));
    rest = λ j d.
        rw (s, b, get-put (pair key.id rapi_id) (pair j.id rapi_id) _ g.blocks) (ground (arith, d));
  }

set_key-unready :
    (now : Time) (m : Manager) (k : Key) (j : PlatformKey)
    → is_ready k now ≡ false
    → serves now now (set_key j.id k m) j ≡ false
unfolding serves
set_key-unready now m k j h = ground (arith, h, key_of-set m now j.id j.id k, eq_ℤ_iff j.id j.id)

-- The scheduler is the only part that a Mark call and its notice change.
record Same (g h : Gateway) (m : Manager) : Type 0 where
  schedulers : h.scheduler ≡ m
  blocks : h.blocks ≡ g.blocks
  ttls : h.block_ttl ≡ g.block_ttl

marked-Same :
    (r : Manager × Time × Bool) (wanted : Bool) (n : Notice) (g : Gateway)
    → Same g (marked r wanted (notify n) g) r.0
unfolding notify
marked-Same r wanted n g = record {
  schedulers = ground arith;
  blocks = ground arith;
  ttls = ground arith;
}

module _ (now : Time) (rapi_id : ℤ) (key : PlatformKey) (g : Gateway) (v : IsValid g.scheduler)
    (ready : (key_of g.scheduler now key.id).0.state ≡ healthy) where
  session_lost :
      (p : SessionFailurePayload) (h : Gateway)
      → Same g h (
          set_key key.id
            (fire_key now session_failure (some (session p)) (key_of g.scheduler now key.id)).0
            g.scheduler)
      → Loses now rapi_id key g h
  session_lost p h s =
      let i = key_of-Inv g.scheduler now key.id v.credentials in
      let k = (fire_key now session_failure (some (session p)) (key_of g.scheduler now key.id)).0 in
      lost_key now rapi_id key g h k
        (set_key-IsValid key.id k g.scheduler (fire_failed-Inv now p _ i) v)
        (set_key-unready now g.scheduler k key (session_failure_unready now p _ i ready))
        s.schedulers s.blocks s.ttls

  platform_lost :
      (p : SessionFailurePayload) (h : Gateway)
      → Same g h (
          set_key key.id
            (fire_key now platform_failure (some (session p)) (key_of g.scheduler now key.id)).0
            g.scheduler)
      → Loses now rapi_id key g h
  platform_lost p h s =
      let i = key_of-Inv g.scheduler now key.id v.credentials in
      let k =
        (fire_key now platform_failure (some (session p)) (key_of g.scheduler now key.id)).0 in
      lost_key now rapi_id key g h k
        (set_key-IsValid key.id k g.scheduler (fire_platform-Inv now p _ i) v)
        (set_key-unready now g.scheduler k key (platform_failure_unready now p _ i ready))
        s.schedulers s.blocks s.ttls

  fails_for_good : (reason : String) → Loses now rapi_id key g (fail_for_good now key reason g)
  unfolding fail_for_good Scheduler.mark_key_platform_failure KeyCalls.on_platform_failure
      KeyCalls.fire_failure
  fails_for_good reason = platform_lost _ _ (
      marked-Same (Scheduler.mark_key_platform_failure now key.id reason g.scheduler) true
        (key_failed key.id) g)

  fails_to_pay :
      (reason : String)
      → Loses now rapi_id key g (
          marked
            (Scheduler.mark_key_billing_failure now key.id reason g.scheduler)
            true
            (notify (key_cooling key.id))
            g)
  unfolding Scheduler.mark_key_billing_failure KeyCalls.on_billing_failure KeyCalls.fire_failure
  fails_to_pay reason = session_lost _ _ (
      marked-Same (Scheduler.mark_key_billing_failure now key.id reason g.scheduler) true
        (key_cooling key.id) g)

  fails_for_now :
      (at : Time) (reason : String) (wanted : Bool)
      → Loses now rapi_id key g (
          marked
            (Scheduler.mark_key_temporary_failure now key.id at reason false g.scheduler)
            wanted
            (notify (key_cooling key.id))
            g)
  unfolding Scheduler.mark_key_temporary_failure KeyCalls.on_temporary_failure KeyCalls.fire_failure
  fails_for_now at reason wanted = session_lost _ _ (
      marked-Same (Scheduler.mark_key_temporary_failure now key.id at reason false g.scheduler)
        wanted (key_cooling key.id) g)

  fails_on_the_way :
      (text : String) (is_timeout : Bool)
      → Loses now rapi_id key g (record g {
        scheduler = (Scheduler.mark_key_failure now key.id 0 text is_timeout g.scheduler).0;
      })
  unfolding Scheduler.mark_key_failure KeyCalls.on_session_failure KeyCalls.fire_failure
  fails_on_the_way text is_timeout =
      session_lost _ _ (record { schedulers = refl; blocks = refl; ttls = refl })

block_pair-Loses :
    (now : Time) (rapi : RapiRow) (key : PlatformKey) (reason : String) (g : Gateway)
    → IsValid g.scheduler
    → is_positive g.block_ttl ≡ true
    → Loses now rapi.id key g (block_pair now rapi key reason g)
unfolding block_pair block_key_for_model notify
block_pair-Loses now rapi key reason g v t =
    lost_pair now rapi.id key g (block_pair now rapi key reason g) reason v t (ground arith)
      (ground arith) (ground arith)

module _ (lib : Library) (now : Time) (rapi : RapiRow) (key : PlatformKey) (g : Gateway)
    (v : IsValid g.scheduler) (ready : (key_of g.scheduler now key.id).0.state ≡ healthy)
    (positive : is_positive g.block_ttl ≡ true) where
  handle_failure-Loses :
      (scope : FailureScope) (code : ℕ) (body : String) (header : Header)
      → Loses now rapi.id key g (handle_failure lib scope now rapi key code body header g)
  unfolding handle_failure
  handle_failure-Loses system_scope code body header = fails_for_good now rapi.id key g v ready _
  handle_failure-Loses platform_scope code body header =
      let reason = "[平台级] upstream " <> lib.show code <> ": " <> body in
      elim (Bool-cases (is_recoverable_billing_error lib body)) [
        | inl e ↦ rw (e, handle_failure) (fails_to_pay now rapi.id key g v ready reason)
        | inr e ↦ elim (Bool-cases ((code == 403) && is_capability_mismatch lib body)) [
          | inl f ↦ rw (e, f, handle_failure) (block_pair-Loses now rapi key reason g v positive)
          | inr f ↦ rw (e, f, handle_failure) (fails_for_good now rapi.id key g v ready reason)
        ]
      ]
  handle_failure-Loses session_scope code body header =
      let reason = "upstream " <> lib.show code <> ": " <> body in
      elim (Bool-cases
        (((code == 400) || (code == 404) || (code == 422)) && is_capability_mismatch lib body)) [
          | inl f ↦ rw (f, handle_failure) (block_pair-Loses now rapi key reason g v positive)
          | inr f ↦
              rw (f, handle_failure)
                (fails_for_now now rapi.id key g v ready (retry_at lib now header 0) reason
                  ((code == 429) || leb 500 code))
        ]

  -- A round that does not end the loop takes its key out of the live ones at that time.
  pub handle_reply-Loses :
      (reply : Reply)
      → (handle_reply lib now rapi key reply g).1 ≡ none
      → Loses now rapi.id key g (handle_reply lib now rapi key reply g).0
  unfolding handle_reply
  handle_reply-Loses (failed text is_timeout) h =
      fails_on_the_way now rapi.id key g v ready text is_timeout
  handle_reply-Loses (answered code body header) h = elim (Bool-cases (is_success code)) [
    | inl e ↦ absurd (ground (arith, e, h))
    | inr e ↦ rw (e, handle_reply) (handle_failure-Loses (classify_failure code) code body header)
  ]
