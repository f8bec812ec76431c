-- ===== src/Gateway/Attempt.antt =====
-- internal/gateway/gateway.go: tryKeyForRAPI, which tries the keys of an endpoint in turn. The upstream is a
-- function from the round of the loop and the key to the reply; one reading of the clock stands for those of a
-- round. The loop runs on fuel, and gives `none` when that runs out.
use Prim.Native.String.{◌++◌ as ◌<>◌}
use api_gateway.Prelude.{
  ℕ, zero, suc, ◌+◌, Bool, true, false, ◌&&◌, ◌||◌, Option, none, some, List, [], ◌∷◌, String,
  if◌then◌else◌, ltb, leb, ◌==◌, pos, negsuc, is_positive,
}
use api_gateway.Clock.{Time}
use api_gateway.Host.{Library, Header}
use api_gateway.Entity.{
  PlatformKey, FailureScope, session_scope, system_scope, platform_scope, classify_failure,
}
use api_gateway.Entity.Bodies.{is_recoverable_billing_error, is_capability_mismatch}
use api_gateway.Formats.{RapiRow}
use api_gateway.Scheduler.Manager as Scheduler
use api_gateway.Scheduler.Manager.{Manager}
use api_gateway.Scheduler.Requests.{retry_at}
use api_gateway.Scheduler.Scanning.{picked, unavailable}
use api_gateway.Scheduler.Keys.{pick_available_key}
use api_gateway.Gateway.{
  Gateway, filter_blocked_keys, block_key_for_model, unblock_key_for_model, notify, key_failed,
  key_cooling, key_blocked,
}
use api_gateway.Gateway.Pool.{mark_pool_exhausted}

-- An error of the transport, with whether it is a timeout, or a response: its status, its body up to the
-- limit of 4096 bytes, and its header.
pub data Reply : Type 0 where
  failed : String → Bool → Reply
  answered : ℕ → String → Header → Reply

pub data Tried : Type 0 where
  success : ℕ → Tried
  all_keys_unavailable : Tried

abbrev pub is_success : ℕ → Bool
is_success code = leb 200 code && ltb code 300

-- The gateway after a Mark call, with a notice if the state of the key changed.
abbrev pub marked : Manager × Time × Bool → Bool → (Gateway → Gateway) → Gateway → Gateway
marked (m, at, changed) wanted say g =
    let g' = record g { scheduler = m } in if changed && wanted then say g' else g'

unfoldable pub fail_for_good : Time → PlatformKey → String → Gateway → Gateway
unfolding notify
fail_for_good clock key reason g =
    marked (Scheduler.mark_key_platform_failure clock key.id reason g.scheduler) true
      (notify (key_failed key.id)) g

unfoldable pub block_pair : Time → RapiRow → PlatformKey → String → Gateway → Gateway
unfolding notify block_key_for_model
block_pair clock rapi key reason g =
    let (g', fresh) = block_key_for_model clock key.id rapi.id reason g in
    if fresh then notify (key_blocked key.id rapi.id) g' else g'

unfoldable pub handle_failure :
    Library → FailureScope → Time → RapiRow → PlatformKey → ℕ → String → Header → Gateway → Gateway
unfolding fail_for_good block_pair notify is_recoverable_billing_error is_capability_mismatch
    retry_at
handle_failure lib system_scope clock rapi key code body header g =
    fail_for_good clock key ("[认证失败] upstream 401: " <> body) g
handle_failure lib platform_scope clock rapi key code body header g =
    let reason = "[平台级] upstream " <> lib.show code <> ": " <> body in
    if is_recoverable_billing_error lib body
    then marked (Scheduler.mark_key_billing_failure clock key.id reason g.scheduler) true
        (notify (key_cooling key.id)) g
    else if (code == 403) && is_capability_mismatch lib body
    then block_pair clock rapi key reason g
    else fail_for_good clock key reason g
handle_failure lib session_scope clock rapi key code body header g =
    let reason = "upstream " <> lib.show code <> ": " <> body in
    if ((code == 400) || (code == 404) || (code == 422)) && is_capability_mismatch lib body
    then block_pair clock rapi key reason g
    else marked
        (Scheduler.mark_key_temporary_failure clock key.id (retry_at lib clock header 0) reason
          false g.scheduler)
        ((code == 429) || leb 500 code) (notify (key_cooling key.id)) g

unfoldable pub handle_success : Time → RapiRow → PlatformKey → Gateway → Gateway
unfolding unblock_key_for_model
handle_success clock rapi key g =
    let g' = record g { scheduler = Scheduler.mark_key_success clock key.id g.scheduler } in
    if is_positive key.id then unblock_key_for_model key.id rapi.id g' else g'

-- One round after the request: the gateway, and the status with which the loop returns.
unfoldable pub handle_reply :
    Library → Time → RapiRow → PlatformKey → Reply → Gateway → Gateway × Option ℕ
unfolding handle_failure handle_success
handle_reply lib clock rapi key (failed text is_timeout) g = (
  record g {
    scheduler = (Scheduler.mark_key_failure clock key.id 0 text is_timeout g.scheduler).0;
  },
  none,
)
handle_reply lib clock rapi key (answered code body header) g =
    if is_success code
    then (handle_success clock rapi key g, some code)
    else (handle_failure lib (classify_failure code) clock rapi key code body header g, none)

-- The key that stands for the token of a platform without keys.
abbrev pub synthetic_key : RapiRow → PlatformKey
synthetic_key rapi = record {
  id = negsuc 0;
  platform_id = rapi.platform_id;
  key_index = pos 0;
  token = rapi.token;
  label = "";
  enabled = true;
  failure_type = pos 0;
  failure_reason = "";
  expires_at = none;
}

abbrev pub pool_of : List PlatformKey → RapiRow → List PlatformKey
pool_of [] rapi = synthetic_key rapi ∷ []
pool_of (k ∷ ks) rapi = k ∷ ks

module _ (lib : Library) (clock : ℕ → Time) (send : ℕ → PlatformKey → Reply) (rapi : RapiRow)
    (session : String) where
  unfoldable pub try_keys : ℕ → ℕ → List PlatformKey → Gateway → Option (Gateway × Tried)
  unfolding filter_blocked_keys pick_available_key mark_pool_exhausted handle_reply
  try_keys zero n keys g = none
  try_keys (suc fuel) n keys g =
      let (g', pool) = filter_blocked_keys (clock n) rapi.id keys g in
      elim pool [
        | [] ↦ some (g', all_keys_unavailable)
        | k0 ∷ rest ↦
            let (m, out) =
              pick_available_key (clock n) (clock n) g'.scheduler (k0 ∷ rest) session in
            let h = record g' { scheduler = m } in
            elim out [
              | unavailable at ↦
                  some
                    (mark_pool_exhausted lib (clock n) rapi (k0 ∷ rest) at h, all_keys_unavailable)
              | picked key ↦
                  let (g2, done) = handle_reply lib (clock n) rapi key (send n key) h in
                  elim done [
                    | some code ↦ some (g2, success code)
                    | none ↦ try_keys fuel (n + 1) (k0 ∷ rest) g2
                  ]
            ]
      ]

  unfoldable pub try_key_for_rapi : ℕ → Gateway → Option (Gateway × Tried)
  unfolding try_keys
  try_key_for_rapi fuel g = try_keys fuel 0 (pool_of rapi.keys rapi) g
