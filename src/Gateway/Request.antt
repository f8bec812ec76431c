-- ===== src/Gateway/Request.antt =====
-- internal/gateway/gateway.go: handleNonStreamingRequest, which tries the endpoints of a local model in turn.
-- The bodies of requests, and what is written to logs and to the table of metrics, are left out. The loop runs
-- on fuel, and gives `none` when that runs out.
pub mod Relayed
use Prim.Native.String.{◌++◌ as ◌<>◌}
use text.Mathlib.Text.{◌==◌ as str_eq}
use api_gateway.Prelude.{
  ℕ, zero, suc, ◌+◌, Bool, true, false, not, ◌&&◌, ◌||◌, Option, none, some, List, [], ◌∷◌, String,
  if◌then◌else◌, ℤ, pos_part, is_positive, eq_ℤ,
}
use api_gateway.Clock.{Time, is_zero}
use api_gateway.Host.{Library, Host}
use api_gateway.Entity.{PlatformKey, key_row_usable}
use api_gateway.Formats.{RapiRow, supports_api_format}
use api_gateway.Scheduler.Manager as Scheduler
use api_gateway.Scheduler.Requests.{estimate_cost}
use api_gateway.Scheduler.Scanning.{Picked, picked, unavailable}
use api_gateway.Scheduler.Endpoints.{pick_available}
use api_gateway.Gateway.{Gateway}
use api_gateway.Gateway.Pool.{handle_all_keys_unavailable}
use api_gateway.Gateway.Attempt.{Reply, Tried, success, all_keys_unavailable, try_key_for_rapi}

unfoldable pub pick_target_format : Host → RapiRow → String → String
unfolding supports_api_format
pick_target_format host rapi client_format =
    if supports_api_format host rapi client_format
    then client_format
    else first_supported ("openai" ∷ "anthropic" ∷ "gemini" ∷ [])
  where
    first_supported : List String → String
    first_supported [] = "openai"
    first_supported (f ∷ fs) = if supports_api_format host rapi f then f else first_supported fs

-- The token of the first usable key, or the empty text.
unfoldable pub first_usable_from_keys : Time → List PlatformKey → String
unfolding key_row_usable
first_usable_from_keys now [] = ""
first_usable_from_keys now (k ∷ ks) =
    if key_row_usable k now then k.token else first_usable_from_keys now ks

-- What one request meets, by the round of its loop: the clock, also in the rounds of the keys, the replies
-- of the upstream, the result of Wait (the text of its error, `none` without one), the URL of an
-- endpoint in a format, the error of ConvertRequest, what extractTokenUsage reads, the body of the response
-- of a round that has one, and ConvertResponse from a format to another (`none` is an error).
pub record World : Type 0 where
  pub clock : ℕ → Time
  pub key_clock : ℕ → ℕ → Time
  pub send : ℕ → ℕ → PlatformKey → Reply
  pub wait : ℕ → Time → Option String
  pub url : RapiRow → String → String
  pub convert_error : RapiRow → String → Option String
  pub token_usage : ℕ → ℤ
  pub body : ℕ → String
  pub convert_response : String → String → String → Option String

-- The status that the handler returns to its caller, which is that of the upstream, and the body that is
-- written to the client, which is sent with status 200, since no other is set; or 503 with a message.
pub data Response : Type 0 where
  relayed : ℕ → String → Response
  refused : String → Response

abbrev pub is_fallback : RapiRow → List RapiRow → Bool
is_fallback rapi [] = false
is_fallback rapi (first ∷ rest) = not (eq_ℤ rapi.id first.id)

-- The body in the client's format, or as it is if the conversion fails.
unfoldable pub client_body : World → String → String → String → String
client_body w target client_format raw =
    if str_eq target client_format
    then raw
    else elim (w.convert_response target client_format raw) [
      | none ↦ raw
      | some converted ↦ converted
    ]

unfoldable pub fail_rapi : Time → RapiRow → String → Gateway → Gateway
fail_rapi clock rapi reason g = record g {
  scheduler = (Scheduler.mark_failure clock rapi.id 0 reason false g.scheduler).0;
}

unfoldable pub relay : Host → Time → RapiRow → ℕ → Gateway → Gateway
relay host clock rapi tokens g = record g {
  scheduler =
      Scheduler.mark_success clock rapi.id
        (Scheduler.record_request host clock rapi.id tokens g.scheduler);
}

module _ (lib : Library) (host : Host) (w : World) (rapis : List RapiRow)
    (session client_format : String) (estimated : ℕ) (key_fuel : ℕ) where
  unfoldable pub handle_request : ℕ → ℕ → Bool → Gateway → Option (Gateway × Bool × Response)
  unfolding pick_available try_key_for_rapi handle_all_keys_unavailable pick_target_format
      client_body
  handle_request zero n fallback g = none
  handle_request (suc fuel) n fallback g =
      let now = w.clock n in
      let (m, out) = pick_available host now now g.scheduler rapis client_format in
      let h = record g { scheduler = m } in
      elim out [
        | unavailable at ↦
            if is_zero at
            then some (h, fallback, refused "all RAPIs are disabled or unavailable")
            else elim (w.wait n at) [
              | some e ↦ some (h, fallback, refused e)
              | none ↦ handle_request fuel (n + 1) fallback h
            ]
        | picked rapi ↦
            let target = pick_target_format host rapi client_format in
            let fallback' = fallback || is_fallback rapi rapis in
            if str_eq (w.url rapi target) ""
            then handle_request fuel (n + 1) fallback (fail_rapi now rapi "invalid url" h)
            else elim (if str_eq target client_format then none else w.convert_error rapi target) [
              | some e ↦
                  handle_request fuel (n + 1) fallback'
                    (fail_rapi now rapi ("convert error: " <> e) h)
              | none ↦
                  elim (try_key_for_rapi lib (w.key_clock n) (w.send n) rapi session key_fuel h) [
                    | none ↦ none
                    | some (g', tried) ↦ elim tried [
                      | all_keys_unavailable ↦
                          handle_request fuel (n + 1) fallback'
                            (handle_all_keys_unavailable lib now rapi g')
                      | success code ↦
                          let tokens =
                            if is_positive (w.token_usage n)
                            then pos_part (w.token_usage n)
                            else estimated in
                          some (
                            relay host now rapi tokens g',
                            fallback',
                            relayed code (client_body w target client_format (w.body n)),
                          )
                    ]
                  ]
            ]
      ]

-- `lengths` are the sizes in bytes of the messages of the request.
unfoldable pub handle_non_streaming_request :
    Library
    → Host
    → World
    → List RapiRow
    → String
    → String
    → List ℕ
    → ℕ
    → ℕ
    → Gateway
    → Option (Gateway × Bool × Response)
unfolding handle_request estimate_cost
handle_non_streaming_request lib host w rapis session client_format lengths key_fuel fuel g =
    handle_request lib host w rapis session client_format (estimate_cost lengths) key_fuel fuel 0
      false g
