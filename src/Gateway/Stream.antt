-- ===== src/Gateway/Stream.antt =====
-- internal/gateway/gateway.go: handleStreamingRequest, which passes a stream on to the client while it reads
-- it. What the client gets is the list of the frames, newest first, each with the round of the loop whose
-- upstream sent it. Fuel, parameters and what is left out are as in Gateway/Request; the adaptation of a
-- native Gemini URL is part of `url`, and notices of single requests are left out.
pub mod Frames
use Prim.Native.String.{◌++◌ as ◌<>◌}
use text.Mathlib.Text.{◌==◌ as str_eq}
use api_gateway.Prelude.{
  ℕ, zero, suc, ◌+◌, Bool, true, false, not, ◌&&◌, ◌||◌, Option, none, some, List, [], ◌∷◌, String,
  if◌then◌else◌, ltb, pos_part, is_positive,
}
use api_gateway.Clock.{Time, is_zero}
use api_gateway.Host.{Library, Host}
use api_gateway.Formats.{RapiRow}
use api_gateway.Scheduler.Manager as Scheduler
use api_gateway.Scheduler.Requests.{estimate_cost}
use api_gateway.Scheduler.Scanning.{Picked, picked, unavailable}
use api_gateway.Scheduler.Endpoints.{pick_available}
use api_gateway.Gateway.{Gateway}
use api_gateway.Gateway.Pool.{handle_all_keys_unavailable}
use api_gateway.Gateway.Attempt.{Tried, success, all_keys_unavailable, try_key_for_rapi}
use api_gateway.Gateway.Request.{World, pick_target_format, is_fallback, fail_rapi}

-- A frame of a stream, a frame of sendErrorStream, or the text of `http.Error`.
pub data Frame : Type 0 where
  body : ℕ → Frame
  error_frame : String → Frame
  http_error : String → Frame

-- For the stream of a round: before each write of bytes that were read, whether the client is still connected; and
-- the number of frames that the converter writes, with whether its run fails.
pub record Streams : Type 0 where
  pub chunks : ℕ → List Bool
  pub converted : ℕ → ℕ × Bool

-- The status with which the handler returns.
pub data Ending : Type 0 where
  ok unavailable_503 no_flusher_500 : Ending

-- The loop that copies the stream: the frames, whether something was written, whether the client is gone.
unfoldable pub copy_stream : ℕ → List Bool → List Frame → Bool → List Frame × Bool × Bool
copy_stream n [] frames committed = (frames, committed, false)
copy_stream n (connected ∷ rest) frames committed =
    let copied = copy_stream n rest (body n ∷ frames) true in
    if not connected then (frames, committed, true) else copied

unfoldable pub write_frames : ℕ → ℕ → List Frame → List Frame
write_frames n zero frames = frames
write_frames n (suc k) frames = write_frames n k (body n ∷ frames)

-- The stream of a response: the frames, `responseCommitted`, and whether the client is gone.
unfoldable pub pass_on : Streams → Bool → ℕ → List Frame → Bool → List Frame × Bool × Bool
unfolding copy_stream write_frames
pass_on s same_format n frames committed =
    if same_format
    then copy_stream n (s.chunks n) frames committed
    else let (written, broken) = s.converted n in
      (
        write_frames n written frames,
        if broken then ltb 0 written else if ltb 0 written then true else committed,
        false,
      )

unfoldable pub record_tokens : Host → Time → RapiRow → ℕ → Gateway → Gateway
record_tokens host clock rapi tokens g = record g {
  scheduler = Scheduler.record_request host clock rapi.id tokens g.scheduler;
}

unfoldable pub succeed : Time → RapiRow → Gateway → Gateway
succeed clock rapi g = record g { scheduler = Scheduler.mark_success clock rapi.id g.scheduler }

module _ (lib : Library) (host : Host) (w : World) (s : Streams) (rapis : List RapiRow)
    (session client_format : String) (estimated : ℕ) (key_fuel : ℕ) where
  unfoldable pub handle_stream :
      ℕ → ℕ → Bool → Bool → List Frame → Gateway → Option (Gateway × Bool × List Frame × Ending)
  unfolding pick_available try_key_for_rapi handle_all_keys_unavailable pick_target_format pass_on
  handle_stream zero n fallback committed frames g = none
  handle_stream (suc fuel) n fallback committed frames g =
      let now = w.clock n in
      let (m, out) = pick_available host now now g.scheduler rapis client_format in
      let h = record g { scheduler = m } in
      elim out [
        | unavailable at ↦
            if is_zero at
            then some (
              h,
              fallback,
              error_frame "all RAPIs are disabled or unavailable" ∷ frames,
              unavailable_503,
            )
            else elim (w.wait n at) [
              | some e ↦ some (h, fallback, error_frame e ∷ frames, unavailable_503)
              | none ↦ handle_stream fuel (n + 1) fallback committed frames h
            ]
        | picked rapi ↦
            let target = pick_target_format host rapi client_format in
            let fallback' = fallback || is_fallback rapi rapis in
            if str_eq (w.url rapi target) ""
            then handle_stream fuel (n + 1) fallback committed frames
                (fail_rapi now rapi "invalid url" h)
            else elim (if str_eq target client_format then none else w.convert_error rapi target) [
              | some e ↦
                  handle_stream fuel (n + 1) fallback' committed frames
                    (fail_rapi now rapi ("convert error: " <> e) h)
              | none ↦
                  elim (try_key_for_rapi lib (w.key_clock n) (w.send n) rapi session key_fuel h) [
                    | none ↦ none
                    | some (g', tried) ↦ elim tried [
                      | all_keys_unavailable ↦
                          handle_stream fuel (n + 1) fallback' committed frames
                            (handle_all_keys_unavailable lib now rapi g')
                      | success code ↦
                          let tokens =
                            if is_positive (w.token_usage n)
                            then pos_part (w.token_usage n)
                            else estimated in
                          let g2 = record_tokens host now rapi tokens g' in
                          let passed = pass_on s (str_eq target client_format) n frames committed in
                          let again =
                            handle_stream fuel (n + 1) fallback' passed.1 passed.0
                              (fail_rapi now rapi "empty stream" g2) in
                          if passed.2
                          then some (g2, fallback', passed.0, ok)
                          else if passed.1
                          then some (succeed now rapi g2, fallback', passed.0, ok)
                          else again
                    ]
                  ]
            ]
      ]

-- `can_flush` says whether the writer is a Flusher, without which nothing can be streamed.
unfoldable pub handle_streaming_request :
    Library
    → Host
    → World
    → Streams
    → Bool
    → List RapiRow
    → String
    → String
    → List ℕ
    → ℕ
    → ℕ
    → Gateway
    → Option (Gateway × Bool × List Frame × Ending)
unfolding handle_stream estimate_cost
handle_streaming_request lib host w s can_flush rapis session client_format lengths key_fuel fuel
      g =
    if not can_flush
    then some (g, false, http_error "Streaming not supported" ∷ [], no_flusher_500)
    else handle_stream lib host w s rapis session client_format (estimate_cost lengths) key_fuel
        fuel 0 false false [] g
