-- ===== src/Gateway/Success.antt =====
-- internal/gateway/gateway.go: with what tryKeyForRAPI succeeds.
use mathlib.Core.List.{Mem, mem-cons_self, mem-cons_of_mem}
use mathlib.Core.List.Perm
use api_gateway.Prelude.{
  ℕ, zero, suc, ◌+◌, ◌≡◌, sym, subst, not, ℤ, true, some, List, [], ◌∷◌, String, arith, Bool-cases,
  Option-cases, inl, inr,
}
use api_gateway.Clock.{Time}
use api_gateway.Host.{Library, Header}
use api_gateway.Entity.{PlatformKey}
use api_gateway.Formats.{RapiRow}
use api_gateway.Key.Calls.{sync, pickable}
use api_gateway.Scheduler.Manager.{Manager, key_of, set_key}
use api_gateway.Scheduler.Scanning.{picked, sooner}
use api_gateway.Scheduler.Sorting.{sort_stable}
use api_gateway.Scheduler.Keys.{scan_keys, pick_available_key, turn_order, index_less}
use api_gateway.Scheduler.Keys.Usable.{order-perm}
use api_gateway.Gateway.{Gateway, filter_blocked_keys}
use api_gateway.Gateway.Blocks.{blocked_at, filter_blocked_keys_lem}
use api_gateway.Gateway.Attempt.{
  Reply, failed, answered, success, is_success, handle_reply, try_keys, pool_of, try_key_for_rapi,
}
use api_gateway.Gateway.Rounds.{keep_if-subset, List-cases, Picked-cases}

scan_keys-Mem :
    (clock now : Time) (m : Manager) (next : Time) (ks : List PlatformKey) (k : PlatformKey)
    → (scan_keys clock now m next ks).1 ≡ picked k
    → Mem k ks
unfolding scan_keys
scan_keys-Mem clock now m next [] k h = cc
scan_keys-Mem clock now m next (j ∷ ks) k h =
    let p = pickable clock now (sync j clock now (key_of m clock j.id)) in
    elim (Bool-cases (pickable clock now (sync j clock now (key_of m clock j.id))).1) [
      | inl e ↦ subst (λ i. Mem i (j ∷ ks)) (ground (arith, e, h)) mem-cons_self
      | inr e ↦ mem-cons_of_mem j (
          scan_keys-Mem clock now (set_key j.id p.0 m) (sooner next p.2) ks k
            (ground (arith, e, h)))
    ]

pick_available_key-Mem :
    (clock now : Time) (m : Manager) (ks : List PlatformKey) (session : String) (k : PlatformKey)
    → (pick_available_key clock now m ks session).1 ≡ picked k
    → Mem k ks
unfolding pick_available_key
pick_available_key-Mem clock now m ks session k h = (Perm.mem_iff (order-perm m now session ks)).0 (
    scan_keys-Mem clock now
      (record m { key_cursors = (turn_order m now session (sort_stable index_less ks)).1 }) 0
      (turn_order m now session (sort_stable index_less ks)).0 k h)

handle_reply_done :
    (lib : Library) (clock : Time) (rapi : RapiRow) (key : PlatformKey) (reply : Reply)
    (g : Gateway) (code : ℕ)
    → (handle_reply lib clock rapi key reply g).1 ≡ some code
    → (body : String) × (header : Header) × (reply ≡ answered code body header)
      × (is_success code ≡ true)
unfolding handle_reply
handle_reply_done lib clock rapi key (failed text is_timeout) g code h = absurd (ground (arith, h))
handle_reply_done lib clock rapi key (answered c body header) g code h =
    (body, header, ground (arith, h), ground (arith, h))

-- An answer with a status from 200 to 299, which the upstream gives to a key of a list.
abbrev pub IsAnswered : (ℕ → PlatformKey → Reply) → List PlatformKey → ℕ → Type 0
IsAnswered send keys code =
    (n : ℕ) × (key : PlatformKey) × (body : String) × (header : Header) × Mem key keys
    × (send n key ≡ answered code body header)
    × (is_success code ≡ true)

filter_blocked_keys-Mem :
    (now : Time) (r : ℤ) (g : Gateway) (keys : List PlatformKey) (k : PlatformKey)
    → Mem k (filter_blocked_keys now r keys g).1
    → Mem k keys
filter_blocked_keys-Mem now r g keys k m =
    keep_if-subset (λ k. not (blocked_at now k.id r g)) keys k
      (subst (λ l. Mem k l) (filter_blocked_keys_lem now r keys g).1 m)

module _ (lib : Library) (clock : ℕ → Time) (send : ℕ → PlatformKey → Reply) (rapi : RapiRow)
    (session : String) where
  try_keys-IsAnswered :
      (fuel n : ℕ) (keys : List PlatformKey) (g h : Gateway) (code : ℕ)
      → try_keys lib clock send rapi session fuel n keys g ≡ some (h, success code)
      → IsAnswered send keys code
  unfolding try_keys
  try_keys-IsAnswered zero n keys g h code e = absurd (ground (arith, e))
  try_keys-IsAnswered (suc fuel) n keys g h code t =
      let g' = (filter_blocked_keys (clock n) rapi.id keys g).0 in
      elim (List-cases (filter_blocked_keys (clock n) rapi.id keys g).1) [
        | inl e ↦ absurd (ground (arith, (rw (e, try_keys) at t)))
        | inr (k, ks, e) ↦
            let m = (pick_available_key (clock n) (clock n) g'.scheduler (k ∷ ks) session).0 in
            let sub : (i : PlatformKey) → Mem i (k ∷ ks) → Mem i keys = λ i j.
              filter_blocked_keys-Mem (clock n) rapi.id g keys i (subst (λ l. Mem i l) (sym e) j) in
            elim (Picked-cases
              (pick_available_key (clock n) (clock n) g'.scheduler (k ∷ ks) session).1) [
                | inl (at, p) ↦ absurd (ground (arith, (rw (e, p, try_keys) at t)))
                | inr (key, p) ↦
                    let gm = record g' { scheduler = m } in
                    let reply = handle_reply lib (clock n) rapi key (send n key) gm in
                    let here =
                      pick_available_key-Mem (clock n) (clock n) g'.scheduler (k ∷ ks) session key
                        p in
                    elim (Option-cases reply.1) [
                      | inr (c, q) ↦
                          let same : c ≡ code = ground (arith, (rw (e, p, q, try_keys) at t)) in
                          let d =
                            handle_reply_done lib (clock n) rapi key (send n key) gm code
                              (rw (← same) q) in
                          (n, key, d.0, d.1, sub key here, d.2, d.3)
                      | inl q ↦
                          let r =
                            try_keys-IsAnswered fuel (n + 1) (k ∷ ks) reply.0 h code
                              (rw (e, p, q, try_keys) at t) in
                          (r.0, r.1, r.2, r.3, sub r.1 r.4, r.5, r.6)
                    ]
              ]
      ]

-- When tryKeyForRAPI returns a response, whatever the readings of the clock, the state of the gateway and
-- the fuel: its status is between 200 and 299, and it is the upstream's answer to a key of the endpoint (or
-- to the token of the platform, if the endpoint has no keys).
pub try_key_for_rapi-IsAnswered :
    (lib : Library) (clock : ℕ → Time) (send : ℕ → PlatformKey → Reply) (rapi : RapiRow)
    (session : String) (fuel : ℕ) (g h : Gateway) (code : ℕ)
    → try_key_for_rapi lib clock send rapi session fuel g ≡ some (h, success code)
    → IsAnswered send (pool_of rapi.keys rapi) code
unfolding try_key_for_rapi
try_key_for_rapi-IsAnswered lib clock send rapi session fuel g h code e =
    try_keys-IsAnswered lib clock send rapi session fuel 0 (pool_of rapi.keys rapi) g h code e
