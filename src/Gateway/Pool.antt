-- ===== src/Gateway/Pool.antt =====
-- internal/gateway/gateway.go: what becomes of an endpoint of which no key can be used.
use Prim.Native.String.{◌++◌ as ◌<>◌}
use text.Mathlib.Text.{◌==◌ as str_eq}
use api_gateway.Prelude.{
  Bool, true, false, not, ◌&&◌, List, [], ◌∷◌, String, if◌then◌else◌, ℤ, is_positive,
}
use api_gateway.Clock.{Time, is_zero}
use api_gateway.Host.{Library}
use api_gateway.Entity.{PlatformKey, keys_hard_dead}
use api_gateway.Formats.{RapiRow}
use api_gateway.Scheduler.Manager as Scheduler
use api_gateway.Scheduler.Pool as SchedulerPool
use api_gateway.Gateway.{Gateway, blocked_reasons, filter_blocked_keys, notify, model_failed}

-- `models.IsAutoDiscovered`.
abbrev pub is_auto_discovered : Library → String → Bool
is_auto_discovered lib source = str_eq (lib.trim_space source) "auto_discover"

-- `strings.Join(blocked, "、")`, of the labels with their reasons.
unfoldable pub join_reasons : List (String × String) → String
join_reasons [] = ""
join_reasons ((label, r) ∷ []) = label <> "（" <> r <> "）"
join_reasons ((label, r) ∷ b ∷ rest) = label <> "（" <> r <> "）、" <> join_reasons (b ∷ rest)

abbrev pub is_empty {ℓ} : {A : Type ℓ} → List A → Bool
is_empty [] = true
is_empty (x ∷ xs) = false

-- Whether a pool is dead for good, and the reason: from its blocked keys, the rest of its keys, and what
-- KeysHardDead says of the rest.
unfoldable pub verdict : List (String × String) → List PlatformKey → Bool × String → Bool × String
unfolding join_reasons
verdict blocked pool (hard, dead_reason) =
    if not (is_empty blocked) && is_empty pool
    then (true, "所有 Key 无权访问此模型: " <> join_reasons blocked)
    else if hard
    then (true, "所有 Key 不可用: " <> dead_reason)
    else (false, "all keys unavailable")

unfoldable pub handle_all_keys_unavailable : Library → Time → RapiRow → Gateway → Gateway
unfolding blocked_reasons filter_blocked_keys verdict notify
handle_all_keys_unavailable lib clock rapi g =
    let (g', blocked) = blocked_reasons clock rapi.id rapi.keys g in
    let (h, pool) = filter_blocked_keys clock rapi.id rapi.keys g' in
    let (dead, reason) = verdict blocked pool (keys_hard_dead pool clock) in
    let (m, first) =
      Scheduler.mark_all_keys_unavailable clock rapi.id (dead && is_auto_discovered lib rapi.source)
        reason h.scheduler in
    let marked = record h { scheduler = m } in
    if first then notify (model_failed rapi.id) marked else marked

unfoldable pub positive_ids : List PlatformKey → List ℤ
positive_ids [] = []
positive_ids (k ∷ ks) = if is_positive k.id then k.id ∷ positive_ids ks else positive_ids ks

unfoldable pub mark_pool_exhausted :
    Library → Time → RapiRow → List PlatformKey → Time → Gateway → Gateway
unfolding handle_all_keys_unavailable positive_ids
mark_pool_exhausted lib clock rapi keys at g =
    if is_zero at then handle_all_keys_unavailable lib clock rapi g else record g {
      scheduler =
          (SchedulerPool.mark_pool_exhausted clock rapi.id (positive_ids keys) at
            "key pool exhausted (all cooling)" g.scheduler).0;
    }
