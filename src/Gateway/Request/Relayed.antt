-- ===== src/Gateway/Request/Relayed.antt =====
-- internal/gateway/gateway.go: what handleNonStreamingRequest passes on to the client.
use mathlib.Core.List.{Mem, mem-cons_self, mem-cons_of_mem}
use mathlib.Core.List.Perm
use text.Mathlib.Text.{◌==◌ as str_eq}
use Prim.Native.String.{◌++◌ as ◌<>◌}
use api_gateway.Prelude.{
  ℕ, zero, suc, ◌+◌, ◌≡◌, ◌⊎◌, refl, subst, ap, ◌∙◌, Bool, true, false, not, ◌||◌, none, some, List,
  [], ◌∷◌, String, arith, if◌then◌else◌, Bool-cases, Option-cases, inl, inr,
}
use api_gateway.Clock.{Time, is_zero}
use api_gateway.Host.{Library, Host}
use api_gateway.Formats.{RapiRow}
use api_gateway.Rapi.Calls.{pickable}
use api_gateway.Scheduler.Manager.{Manager, rapi_of, set_rapi}
use api_gateway.Scheduler.Scanning.{picked, sooner}
use api_gateway.Scheduler.Sorting.{sort_stable, sort_stable-perm}
use api_gateway.Scheduler.Requests.{estimate_cost}
use api_gateway.Scheduler.Endpoints.{scan_rows, row_less, sorted_manager, pick_available}
use api_gateway.Gateway.{Gateway}
use api_gateway.Gateway.Pool.{handle_all_keys_unavailable}
use api_gateway.Gateway.Attempt.{Tried, success, all_keys_unavailable, try_key_for_rapi, pool_of}
use api_gateway.Gateway.Rounds.{Picked-cases}
use api_gateway.Gateway.Success.{IsAnswered, try_key_for_rapi-IsAnswered}
use api_gateway.Gateway.Request.{
  World, relayed, client_body, is_fallback, fail_rapi, pick_target_format, handle_request,
  handle_non_streaming_request,
}

scan_rows-Mem :
    (clock now : Time) (m : Manager) (next : Time) (rs : List RapiRow) (r : RapiRow)
    → (scan_rows clock now m next rs).1 ≡ picked r
    → Mem r rs × (r.enabled ≡ true) × (r.available ≡ true)
unfolding scan_rows
scan_rows-Mem clock now m next [] r h = cc
scan_rows-Mem clock now m next (q ∷ qs) r h =
    let p = pickable clock now (rapi_of m clock q.id) in
    elim (Bool-cases (not q.enabled || not q.available)) [
      | inl off ↦
          let i = scan_rows-Mem clock now m next qs r (ground (arith, off, h)) in
          (mem-cons_of_mem q i.0, i.1, i.2)
      | inr on ↦ elim (Bool-cases (pickable clock now (rapi_of m clock q.id)).1) [
        | inl e ↦
            let same : q ≡ r = ground (arith, on, e, h) in
            (
              subst (λ i. Mem i (q ∷ qs)) same mem-cons_self,
              subst (λ (i : RapiRow). i.enabled ≡ true) same (ground (arith, on)),
              subst (λ (i : RapiRow). i.available ≡ true) same (ground (arith, on)),
            )
        | inr e ↦
            let i =
              scan_rows-Mem clock now (set_rapi q.id p.0 m) (sooner next p.2) qs r
                (ground (arith, on, e, h)) in
            (mem-cons_of_mem q i.0, i.1, i.2)
      ]
    ]

pick_available-Mem :
    (host : Host) (clock now : Time) (m : Manager) (rs : List RapiRow) (prefer : String)
    (r : RapiRow)
    → (pick_available host clock now m rs prefer).1 ≡ picked r
    → Mem r rs × (r.enabled ≡ true) × (r.available ≡ true)
unfolding pick_available
pick_available-Mem host clock now m rs prefer r h =
    let i =
      scan_rows-Mem clock now (sorted_manager host now rs m) 0
        (sort_stable (row_less host m now prefer) rs) r h in
    ((Perm.mem_iff (sort_stable-perm (row_less host m now prefer) rs)).0 i.0, i.1, i.2)

-- What the client gets of an upstream's body: the body itself if the endpoint was asked in the client's
-- format or the conversion fails, and otherwise the converted one.
abbrev pub IsBody : World → String → String → String → String → Type 0
IsBody w target client_format raw text =
    ((text ≡ raw)
      × ((str_eq target client_format ≡ true)
          ⊎ (w.convert_response target client_format raw ≡ none)))
    ⊎ ((str_eq target client_format ≡ false)
        × (w.convert_response target client_format raw ≡ some text))

client_body-IsBody :
    (w : World) (target client_format raw : String)
    → IsBody w target client_format raw (client_body w target client_format raw)
unfolding client_body
client_body-IsBody w target client_format raw = elim (Bool-cases (str_eq target client_format)) [
  | inl e ↦ rw (e, client_body) (inl (refl, inl refl))
  | inr e ↦ elim (Option-cases (w.convert_response target client_format raw)) [
    | inl c ↦ rw (e, c, client_body) (inl (refl, inr refl))
    | inr (t, c) ↦ rw (e, c, client_body) (inr (refl, refl))
  ]
]

-- In some round an enabled and available endpoint of the list that has a URL gave a status from 200 to 299 to
-- one of its keys, and the text is the body of that round's response.
abbrev pub IsRelayed : Host → World → List RapiRow → String → ℕ → String → Type 0
IsRelayed host w rapis client_format code text =
    (n : ℕ) × (rapi : RapiRow) × Mem rapi rapis
    × (rapi.enabled ≡ true)
    × (rapi.available ≡ true)
    × (str_eq (w.url rapi (pick_target_format host rapi client_format)) "" ≡ false)
    × IsAnswered (w.send n) (pool_of rapi.keys rapi) code
    × IsBody w (pick_target_format host rapi client_format) client_format (w.body n) text

pub Tried-cases : (t : Tried) → (t ≡ all_keys_unavailable) ⊎ ((code : ℕ) × (t ≡ success code))
Tried-cases all_keys_unavailable = inl refl
Tried-cases (success code) = inr (code, refl)

module _ (lib : Library) (host : Host) (w : World) (rapis : List RapiRow)
    (session client_format : String) (estimated : ℕ) (key_fuel : ℕ) where
  handle_request-IsRelayed :
      (fuel n : ℕ) (fallback : Bool) (g h : Gateway) (b : Bool) (code : ℕ) (text : String)
      → handle_request lib host w rapis session client_format estimated key_fuel fuel n fallback g
        ≡ some (h, b, relayed code text)
      → IsRelayed host w rapis client_format code text
  unfolding handle_request
  handle_request-IsRelayed zero n fallback g h b code text t = absurd (ground (arith, t))
  handle_request-IsRelayed (suc fuel) n fallback g h b code text t =
      let now = w.clock n in
      let gm = record g {
        scheduler = (pick_available host now now g.scheduler rapis client_format).0;
      } in
      elim (Picked-cases (pick_available host now now g.scheduler rapis client_format).1) [
        | inl (at, p) ↦ elim (Bool-cases (is_zero at)) [
          | inl z ↦ absurd (ground (arith, (rw (p, z, handle_request) at t)))
          | inr z ↦ elim (Option-cases (w.wait n at)) [
            | inr (e, v) ↦ absurd (ground (arith, (rw (p, z, v, handle_request) at t)))
            | inl v ↦
                handle_request-IsRelayed fuel (n + 1) fallback gm h b code text
                  (rw (p, z, v, handle_request) at t)
          ]
        ]
        | inr (rapi, p) ↦
            let target = pick_target_format host rapi client_format in
            let fallback' = fallback || is_fallback rapi rapis in
            let i = pick_available-Mem host now now g.scheduler rapis client_format rapi p in
            elim (Bool-cases (str_eq (w.url rapi target) "")) [
              | inl u ↦
                  handle_request-IsRelayed fuel (n + 1) fallback
                    (fail_rapi now rapi "invalid url" gm) h b code text
                    (rw (p, u, handle_request) at t)
              | inr u ↦
                  elim (Option-cases
                    (if str_eq target client_format then none else w.convert_error rapi target)) [
                      | inr (e, c) ↦
                          handle_request-IsRelayed fuel (n + 1) fallback'
                            (fail_rapi now rapi ("convert error: " <> e) gm) h b code text
                            (rw (p, u, c, handle_request) at t)
                      | inl c ↦
                          elim (Option-cases (
                            try_key_for_rapi lib (w.key_clock n) (w.send n) rapi session key_fuel
                              gm)) [
                                | inl k ↦
                                    absurd (ground (arith, (rw (p, u, c, k, handle_request) at t)))
                                | inr (r, k) ↦ elim (Tried-cases r.1) [
                                  | inl a ↦
                                      handle_request-IsRelayed fuel (n + 1) fallback'
                                        (handle_all_keys_unavailable lib now rapi r.0) h b code text
                                        (rw (p, u, c, k, a, handle_request) at t)
                                  | inr (c2, a) ↦
                                      let got = rw (p, u, c, k, a, handle_request) at t in
                                      let same : c2 ≡ code = ground (arith, got) in
                                      let passed : client_body w target client_format (w.body n)
                                          ≡ text =
                                        ground (arith, got) in
                                      (
                                        n,
                                        rapi,
                                        i.0,
                                        i.1,
                                        i.2,
                                        u,
                                        try_key_for_rapi-IsAnswered lib (w.key_clock n) (w.send n)
                                            rapi session key_fuel gm r.0 code
                                            (k ∙ ap (λ x. some (r.0, x)) (a ∙ ap success same)),
                                        subst (IsBody w target client_format (w.body n)) passed
                                            (client_body-IsBody w target client_format (w.body n)),
                                      )
                                ]
                              ]
                    ]
            ]
      ]

-- When handleNonStreamingRequest passes a response on, whatever the clocks, the upstream, the conversions,
-- the state of the gateway and the fuel: the status that it returns is between 200 and 299, and in some round
-- it is the upstream's answer to a key of an endpoint of the local model that is enabled, available and
-- has a URL for the format; and the body that is written to the client is the body of that round's
-- response, converted to the client's format if the endpoint was asked in another and the conversion
-- succeeds.
pub handle_non_streaming_request-IsRelayed :
    (lib : Library) (host : Host) (w : World) (rapis : List RapiRow)
    (session client_format : String) (lengths : List ℕ) (key_fuel fuel : ℕ) (g h : Gateway)
    (fallback : Bool) (code : ℕ) (text : String)
    → handle_non_streaming_request lib host w rapis session client_format lengths key_fuel fuel g
      ≡ some (h, fallback, relayed code text)
    → IsRelayed host w rapis client_format code text
unfolding handle_non_streaming_request
handle_non_streaming_request-IsRelayed lib host w rapis session client_format lengths key_fuel fuel
      g h fallback code text e =
    handle_request-IsRelayed lib host w rapis session client_format (estimate_cost lengths) key_fuel
      fuel 0 false g h fallback code text e
