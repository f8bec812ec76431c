-- ===== src/Gateway/Ends.antt =====
-- internal/gateway/gateway.go: the number of rounds of tryKeyForRAPI.
use mathlib.Core.List.{Mem, Nodup}
use mathlib.Mathlib.Data.List.Nodup.{Nodup-singleton}
use mathlib.Core.Logic.{∥∥₁_elim}
use api_gateway.Prelude.{
  ℕ, zero, suc, ◌+◌, ◌≡◌, ◌<◌, ◌≤◌, refl, sym, subst, ◌∙◌, map, Bool, true, false, not, Option,
  none, some, List, ◌∷◌, String, arith, ℤ, negsuc, eq_ℤ, Bool-cases, Option-cases, inl, inr,
  is_positive, ltb, length, keep_if, length-keep_if-le,
}
use api_gateway.Clock.{Time}
use api_gateway.Host.{Library}
use api_gateway.Entity.{PlatformKey}
use api_gateway.Formats.{RapiRow}
use api_gateway.Scheduler.Manager.{Manager}
use api_gateway.Scheduler.Scanning.{picked, IsServed}
use api_gateway.Scheduler.Keys.{pick_available_key}
use api_gateway.Scheduler.Keys.Usable.{
  serves, recovers_at, pick_available_key-IsServed, pick_available_key_healthy,
}
use api_gateway.Scheduler.Keys.Shrink.{pick_available_key-serves}
use api_gateway.Scheduler.Reachable.{IsValid}
use api_gateway.Scheduler.Reachable.Runs.{Step, Step-IsValid}
use api_gateway.Gateway.{Gateway, filter_blocked_keys}
use api_gateway.Gateway.Blocks.{blocked_at, AgreesAt, filter_blocked_keys_lem}
use api_gateway.Gateway.Attempt.{Reply, Tried, handle_reply, try_keys, pool_of, try_key_for_rapi}
use api_gateway.Gateway.Losses.{live, Loses, handle_reply-Loses}
use api_gateway.Gateway.Rounds.{
  count_keep_if, mem-keep_if, List-cases, Picked-cases, count_le, count_less, keep_if-Nodup,
  same_id,
}

-- The number of keys that can be tried.
unfoldable pub live_keys : Time → ℤ → Gateway → List PlatformKey → ℕ
live_keys now r g ks = length (keep_if (live now r g) ks)

abbrev with_scheduler : Gateway → Manager → Gateway
with_scheduler g m = record g { scheduler = m }

module _ (now : Time) (r : ℤ) (g : Gateway) (pool : List PlatformKey) (session : String)
    (v : IsValid g.scheduler) (d : Nodup (map (λ k. k.id) pool))
    (open_ : (k : PlatformKey) → Mem k pool → blocked_at now k.id r g ≡ false) (key : PlatformKey)
    (chosen : (pick_available_key now now g.scheduler pool session).1 ≡ picked key) where
  picked_serves : Mem key pool × (serves now now g.scheduler key ≡ true)
  picked_serves =
      subst (IsServed (serves now now g.scheduler) (recovers_at now now g.scheduler) pool) chosen
        (pick_available_key-IsServed now now g.scheduler pool session v.credentials d)

  live_after_pick :
      (j : PlatformKey)
      → Mem j pool
      → live now r (with_scheduler g (pick_available_key now now g.scheduler pool session).0) j
        ≡ true
      → live now r g j ≡ true
  unfolding live blocked_at
  live_after_pick j m h =
      ground
        (arith, h, pick_available_key-serves now g.scheduler pool session j v (same_id pool d j m))

  round_shrinks :
      (g2 : Gateway)
      → Loses now r key
          (with_scheduler g (pick_available_key now now g.scheduler pool session).0)
          g2
      → ltb (live_keys now r g2 pool) (live_keys now r g pool) ≡ true
  unfolding live live_keys
  round_shrinks g2 l =
      let p = picked_serves in
      count_less (live now r g) (live now r g2) pool mono key p.0 (rw (open_ key p.0, p.1) refl)
        l.lost
    where
      mono : (j : PlatformKey) → Mem j pool → live now r g2 j ≡ true → live now r g j ≡ true
      mono j m h = elim (Bool-cases (eq_ℤ key.id j.id)) [
        | inl e ↦
            ∥∥₁_elim (same_id pool d j m key picked_serves.0 e) (hlevel)
              (λ a. absurd (ground (arith, l.lost, subst (λ i. live now r g2 i ≡ true) (sym a) h)))
        | inr e ↦ live_after_pick j m (sym (l.rest j e) ∙ h)
      ]

AgreesAt-live :
    {now : Time} {g h : Gateway} (r : ℤ)
    → AgreesAt now g h
    → (k : PlatformKey) → live now r h k ≡ live now r g k
unfolding live serves
AgreesAt-live r a k = rw (a.blocked k.id r, a.schedulers) refl

-- What the rounds need of a gateway and a pool.
record Sound (now : Time) (r : ℤ) (g : Gateway) (pool : List PlatformKey) : Type 0 where
  valid : IsValid g.scheduler
  positive : is_positive g.block_ttl ≡ true
  distinct : Nodup (map (λ k. k.id) pool)

-- The pool that is left after the blocked keys are filtered out.
record Filtered (now : Time) (r : ℤ) (g : Gateway) (bound : ℕ) (pool : List PlatformKey)
    : Type 0 where
  sound : Sound now r g pool
  open_ : (k : PlatformKey) → Mem k pool → blocked_at now k.id r g ≡ false
  few : live_keys now r g pool ≤ bound

Sound-Filtered :
    (now : Time) (r : ℤ) (g : Gateway) (keys : List PlatformKey)
    → Sound now r g keys
    → Filtered now r
        (filter_blocked_keys now r keys g).0
        (live_keys now r g keys)
        (filter_blocked_keys now r keys g).1
unfolding live_keys
Sound-Filtered now r g keys s =
    let f = filter_blocked_keys_lem now r keys g in
    let p : (k : PlatformKey) → Bool = λ k. not (blocked_at now k.id r g) in
    let h = (filter_blocked_keys now r keys g).0 in
    subst (Filtered now r h (length (keep_if (live now r g) keys))) (sym f.1) (record {
      sound = record {
        valid = rw f.0.schedulers s.valid;
        positive = rw f.0.ttls s.positive;
        distinct = keep_if-Nodup (λ k. k.id) p keys s.distinct;
      };
      open_ = λ k m. f.0.blocked k.id r ∙ ground (arith, mem-keep_if p keys k m);
      few = omega (
        arith,
        count_keep_if p (live now r g) keys,
        count_le (live now r g) (live now r h) (keep_if p keys)
            (λ x m e. sym (AgreesAt-live r f.0 x) ∙ e),
      );
    })

abbrev is_some {ℓ} : {A : Type ℓ} → Option A → Bool
is_some none = false
is_some (some a) = true

module _ (lib : Library) (now : Time) (send : ℕ → PlatformKey → Reply) (rapi : RapiRow)
    (session : String) where
  -- What the next round needs, when a round does not return.
  next_Sound :
      (n : ℕ) (g : Gateway) (bound : ℕ) (pool : List PlatformKey) (key : PlatformKey)
      → Filtered now rapi.id g bound pool
      → (pick_available_key now now g.scheduler pool session).1 ≡ picked key
      → (handle_reply lib now rapi key
          (send n key)
          (with_scheduler g (pick_available_key now now g.scheduler pool session).0)).1
        ≡ none
      → let g2 =
          (handle_reply lib now rapi key
            (send n key)
            (with_scheduler g (pick_available_key now now g.scheduler pool session).0)).0 in
        Sound now rapi.id g2 pool × (live_keys now rapi.id g2 pool < bound)
  next_Sound n g bound pool key f chosen open_end =
      let m = (pick_available_key now now g.scheduler pool session).0 in
      let l =
        handle_reply-Loses lib now rapi key (with_scheduler g m)
          (Step-IsValid (Step.picks_key now now pool session) f.sound.valid)
          (pick_available_key_healthy now now g.scheduler pool session key chosen) f.sound.positive
          (send n key) open_end in
      (
        record {
          valid = l.valid;
          positive = rw l.ttl f.sound.positive;
          distinct = f.sound.distinct;
        },
        ground (
          arith,
          f.few,
          round_shrinks now rapi.id g pool session f.sound.valid f.sound.distinct f.open_ key chosen
              _ l,
        ),
      )

  try_keys_end :
      (fuel n : ℕ) (keys : List PlatformKey) (g : Gateway)
      → Sound now rapi.id g keys
      → live_keys now rapi.id g keys < fuel
      → is_some (try_keys lib (λ i. now) send rapi session fuel n keys g) ≡ true
  unfolding try_keys
  try_keys_end zero n keys g s h = absurd (omega (arith, h))
  try_keys_end (suc fuel) n keys g s h =
      let g' = (filter_blocked_keys now rapi.id keys g).0 in
      elim (List-cases (filter_blocked_keys now rapi.id keys g).1) [
        | inl e ↦ rw (e, try_keys) refl
        | inr (k, ks, e) ↦
            let f : Filtered now rapi.id g' (live_keys now rapi.id g keys) (k ∷ ks) =
              subst (Filtered now rapi.id g' (live_keys now rapi.id g keys)) e
                (Sound-Filtered now rapi.id g keys s) in
            let m = (pick_available_key now now g'.scheduler (k ∷ ks) session).0 in
            elim (Picked-cases (pick_available_key now now g'.scheduler (k ∷ ks) session).1) [
              | inl (at, p) ↦ rw (e, p, try_keys) refl
              | inr (key, p) ↦
                  let reply = handle_reply lib now rapi key (send n key) (with_scheduler g' m) in
                  elim (Option-cases reply.1) [
                    | inr (code, q) ↦ rw (e, p, q, try_keys) refl
                    | inl q ↦
                        let next = next_Sound n g' _ (k ∷ ks) key f p q in
                        rw (e, p, q, try_keys)
                          (try_keys_end fuel (n + 1) (k ∷ ks) reply.0 next.0
                            (omega (arith, next.1, h)))
                  ]
            ]
      ]

pool_of-length :
    (rapi : RapiRow) (n : ℕ) → length rapi.keys < n → 1 < n → length (pool_of rapi.keys rapi) < n
pool_of-length rapi n h k = elim (List-cases rapi.keys) [
  | inl e ↦ rw e k
  | inr (j, js, e) ↦ rw e (subst (λ (l : List PlatformKey). length l < n) e h)
]

pool_of-Nodup :
    (rapi : RapiRow)
    → Nodup (map (λ k. k.id) rapi.keys)
    → Nodup (map (λ k. k.id) (pool_of rapi.keys rapi))
pool_of-Nodup rapi d = elim (List-cases rapi.keys) [
  | inl e ↦ rw e (Nodup-singleton (negsuc 0))
  | inr (k, ks, e) ↦
      subst (λ (l : List PlatformKey). Nodup (map (λ (k : PlatformKey). k.id) l)) (rw e refl) d
]

-- tryKeyForRAPI, of a gateway whose scheduler satisfies its invariant and whose blocks last some time, on
-- an endpoint whose keys have distinct ids, while the clock stands still and whatever the upstream
-- answers: the loop returns, within one round more than there are keys, or within two rounds for the token
-- of the platform, which stands in if there are none.
pub try_key_for_rapi_ends :
    (lib : Library) (now : Time) (send : ℕ → PlatformKey → Reply) (rapi : RapiRow)
    (session : String) (g : Gateway) (fuel : ℕ)
    → IsValid g.scheduler
    → is_positive g.block_ttl ≡ true
    → Nodup (map (λ k. k.id) rapi.keys)
    → length rapi.keys < fuel
    → 1 < fuel
    → (out : Gateway × Tried) × (try_key_for_rapi lib (λ n. now) send rapi session fuel g
        ≡ some out)
unfolding try_key_for_rapi live_keys
try_key_for_rapi_ends lib now send rapi session g fuel v positive d h k =
    let pool = pool_of rapi.keys rapi in
    let ended =
      try_keys_end lib now send rapi session fuel 0 pool g
        (record { valid = v; positive = positive; distinct = pool_of-Nodup rapi d })
        (omega
          (arith, pool_of-length rapi fuel h k, length-keep_if-le (live now rapi.id g) pool)) in
    elim (Option-cases (try_keys lib (λ n. now) send rapi session fuel 0 pool g)) [
      | inl e ↦ absurd (ground (arith, e, ended))
      | inr r ↦ r
    ]
