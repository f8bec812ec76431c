-- ===== src/Gateway/Stream/Frames.antt =====
-- internal/gateway/gateway.go: the frames that handleStreamingRequest writes.
use Prim.Native.String.{◌++◌ as ◌<>◌}
use text.Mathlib.Text.{◌==◌ as str_eq}
use api_gateway.Prelude.{
  ℕ, zero, suc, ◌+◌, ◌≡◌, refl, subst, Bool, true, false, ◌||◌, Option, none, some, List, [], ◌∷◌,
  String, arith, if◌then◌else◌, ltb, All, Bool-cases, Option-cases, inl, inr,
}
use api_gateway.Clock.{is_zero}
use api_gateway.Host.{Library, Host}
use api_gateway.Formats.{RapiRow}
use api_gateway.Scheduler.Requests.{estimate_cost}
use api_gateway.Scheduler.Endpoints.{pick_available}
use api_gateway.Gateway.{Gateway}
use api_gateway.Gateway.Pool.{handle_all_keys_unavailable}
use api_gateway.Gateway.Attempt.{try_key_for_rapi}
use api_gateway.Gateway.Rounds.{Picked-cases}
use api_gateway.Gateway.Request.{World, pick_target_format, is_fallback, fail_rapi}
use api_gateway.Gateway.Request.Relayed.{Tried-cases}
use api_gateway.Gateway.Stream.{
  Frame, body, error_frame, http_error, Streams, Ending, ok, unavailable_503, no_flusher_500,
  copy_stream, write_frames, pass_on, handle_stream, handle_streaming_request,
}

-- What the client gets: with status 200 the frames of one round alone, else one error alone.
abbrev pub IsOneStream : List Frame → Ending → Type 0
IsOneStream frames ok = (n : ℕ) × All (λ f. f ≡ body n) frames
IsOneStream frames unavailable_503 = (reason : String) × (frames ≡ error_frame reason ∷ [])
IsOneStream frames no_flusher_500 = frames ≡ http_error "Streaming not supported" ∷ []

-- The frames of a result are as `IsOneStream` says.
abbrev OfResult : Option (Gateway × Bool × List Frame × Ending) → Type 0
OfResult none = Unit
OfResult (some r) = IsOneStream r.2 r.3

is_stream :
    {r : Gateway × Bool × List Frame × Ending} (q : Gateway × Bool × List Frame × Ending)
    → some q ≡ some r
    → IsOneStream q.2 q.3
    → IsOneStream r.2 r.3
is_stream q e i = subst OfResult e i

copy_stream-body :
    (n : ℕ) (cs : List Bool) (frames : List Frame) (committed : Bool)
    → All (λ f. f ≡ body n) frames
    → All (λ f. f ≡ body n) (copy_stream n cs frames committed).0
unfolding copy_stream
copy_stream-body n [] frames committed h = h
copy_stream-body n (true ∷ cs) frames committed h =
    copy_stream-body n cs (body n ∷ frames) true (refl, h)
copy_stream-body n (false ∷ cs) frames committed h = h

copy_stream_committed :
    (n : ℕ) (cs : List Bool) (frames : List Frame) → (copy_stream n cs frames true).1 ≡ true
unfolding copy_stream
copy_stream_committed n [] frames = refl
copy_stream_committed n (true ∷ cs) frames = copy_stream_committed n cs (body n ∷ frames)
copy_stream_committed n (false ∷ cs) frames = refl

copy_stream_nothing :
    (n : ℕ) (cs : List Bool)
    → (copy_stream n cs [] false).1 ≡ false
    → (copy_stream n cs [] false).0 ≡ []
unfolding copy_stream
copy_stream_nothing n [] h = refl
copy_stream_nothing n (true ∷ cs) h =
    absurd (ground (arith, h, copy_stream_committed n cs (body n ∷ [])))
copy_stream_nothing n (false ∷ cs) h = refl

write_frames-body :
    (n k : ℕ) (frames : List Frame)
    → All (λ f. f ≡ body n) frames
    → All (λ f. f ≡ body n) (write_frames n k frames)
unfolding write_frames
write_frames-body n zero frames h = h
write_frames-body n (suc k) frames h = write_frames-body n k (body n ∷ frames) (refl, h)

write_frames_nothing : (n k : ℕ) → ltb 0 k ≡ false → write_frames n k [] ≡ []
unfolding write_frames
write_frames_nothing n zero h = refl
write_frames_nothing n (suc k) h = absurd (ground (arith, h))

module _ (s : Streams) (n : ℕ) where
  pass_on-body : (same_format : Bool) → All (λ f. f ≡ body n) (pass_on s same_format n [] false).0
  unfolding pass_on
  pass_on-body true = copy_stream-body n (s.chunks n) [] false tt
  pass_on-body false = write_frames-body n (s.converted n).0 [] tt

  -- What did not commit the response wrote nothing.
  pass_on_nothing :
      (same_format : Bool)
      → (pass_on s same_format n [] false).1 ≡ false
      → (pass_on s same_format n [] false).0 ≡ []
  unfolding pass_on
  pass_on_nothing true h = copy_stream_nothing n (s.chunks n) h
  pass_on_nothing false h = write_frames_nothing n (s.converted n).0 (ground (arith, h))

module _ (lib : Library) (host : Host) (w : World) (s : Streams) (rapis : List RapiRow)
    (session client_format : String) (estimated : ℕ) (key_fuel : ℕ) where
  handle_stream-IsOneStream :
      (fuel n : ℕ) (fallback : Bool) (g h : Gateway) (b : Bool) (frames : List Frame) (end : Ending)
      → handle_stream lib host w s rapis session client_format estimated key_fuel fuel n fallback
          false [] g
        ≡ some (h, b, frames, end)
      → IsOneStream frames end
  unfolding handle_stream
  handle_stream-IsOneStream zero n fallback g h b frames end t = absurd (ground (arith, t))
  handle_stream-IsOneStream (suc fuel) n fallback g h b frames end t =
      let now = w.clock n in
      let gm = record g {
        scheduler = (pick_available host now now g.scheduler rapis client_format).0;
      } in
      elim (Picked-cases (pick_available host now now g.scheduler rapis client_format).1) [
        | inl (at, p) ↦ elim (Bool-cases (is_zero at)) [
          | inl z ↦ is_stream _ (rw (p, z, handle_stream) at t) (_, refl)
          | inr z ↦ elim (Option-cases (w.wait n at)) [
            | inr (e, v) ↦ is_stream _ (rw (p, z, v, handle_stream) at t) (e, refl)
            | inl v ↦
                handle_stream-IsOneStream fuel (n + 1) fallback gm h b frames end
                  (rw (p, z, v, handle_stream) at t)
          ]
        ]
        | inr (rapi, p) ↦
            let target = pick_target_format host rapi client_format in
            let fallback' = fallback || is_fallback rapi rapis in
            elim (Bool-cases (str_eq (w.url rapi target) "")) [
              | inl u ↦
                  handle_stream-IsOneStream fuel (n + 1) fallback
                    (fail_rapi now rapi "invalid url" gm) h b frames end
                    (rw (p, u, handle_stream) at t)
              | inr u ↦
                  elim (Option-cases
                    (if str_eq target client_format then none else w.convert_error rapi target)) [
                      | inr (e, c) ↦
                          handle_stream-IsOneStream fuel (n + 1) fallback'
                            (fail_rapi now rapi ("convert error: " <> e) gm) h b frames end
                            (rw (p, u, c, handle_stream) at t)
                      | inl c ↦
                          elim (Option-cases (
                            try_key_for_rapi lib (w.key_clock n) (w.send n) rapi session key_fuel
                              gm)) [
                                | inl k ↦
                                    absurd (ground (arith, (rw (p, u, c, k, handle_stream) at t)))
                                | inr (r, k) ↦ elim (Tried-cases r.1) [
                                  | inl a ↦
                                      handle_stream-IsOneStream fuel (n + 1) fallback'
                                        (handle_all_keys_unavailable lib now rapi r.0) h b frames
                                        end (rw (p, u, c, k, a, handle_stream) at t)
                                  | inr (code, a) ↦
                                      let same = str_eq target client_format in
                                      let all = pass_on-body s n same in
                                      elim (Bool-cases (pass_on s same n [] false).2) [
                                        | inl x ↦
                                            is_stream _ (rw (p, u, c, k, a, x, handle_stream) at t)
                                              (n, all)
                                        | inr x ↦ elim (Bool-cases (pass_on s same n [] false).1) [
                                          | inl y ↦
                                              is_stream _
                                                (rw (p, u, c, k, a, x, y, handle_stream) at t)
                                                (n, all)
                                          | inr y ↦
                                              handle_stream-IsOneStream fuel (n + 1) fallback' _ h b
                                                frames end
                                                (rw
                                                  (
                                                    p,
                                                    u,
                                                    c,
                                                    k,
                                                    a,
                                                    x,
                                                    y,
                                                    pass_on_nothing s n same y,
                                                    handle_stream,
                                                  )
                                                  at t)
                                        ]
                                      ]
                                ]
                              ]
                    ]
            ]
      ]

-- When handleStreamingRequest returns, whatever the clocks, the upstream, the conversions, the client's
-- connection, the state of the gateway and the fuel: with status 200 the client got body frames of a single
-- round alone, so of one upstream; with 503 one error frame and nothing else; with 500, without a
-- Flusher, the error "Streaming not supported" and nothing else.
pub handle_streaming_request-IsOneStream :
    (lib : Library) (host : Host) (w : World) (s : Streams) (can_flush : Bool)
    (rapis : List RapiRow) (session client_format : String) (lengths : List ℕ) (key_fuel fuel : ℕ)
    (g h : Gateway) (fallback : Bool) (frames : List Frame) (end : Ending)
    → handle_streaming_request lib host w s can_flush rapis session client_format lengths key_fuel
        fuel g
      ≡ some (h, fallback, frames, end)
    → IsOneStream frames end
unfolding handle_streaming_request
handle_streaming_request-IsOneStream lib host w s can_flush rapis session client_format lengths
      key_fuel fuel g h fallback frames end e =
    elim (Bool-cases can_flush) [
      | inl c ↦
          handle_stream-IsOneStream lib host w s rapis session client_format (estimate_cost lengths)
            key_fuel fuel 0 false g h fallback frames end (rw (c, handle_streaming_request) at e)
      | inr c ↦ is_stream _ (rw (c, handle_streaming_request) at e) refl
    ]
