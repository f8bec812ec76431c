-- ===== src/Entity/Bodies.antt =====
-- internal/entity/entity.go: what the body of an upstream error says.
use api_gateway.Prelude.{Bool, false, ◌||◌, List, [], ◌∷◌, String, if◌then◌else◌}
use text.Mathlib.Text.{◌==◌ as str_eq}
use api_gateway.Host.{Library}

abbrev pub recoverable_billing_keywords : List String
recoverable_billing_keywords =
    "积分不足" ∷ "余额不足" ∷ "欠费" ∷ "余额为0" ∷ "余额为零" ∷ "insufficient balance" ∷ "insufficient_balance"
    ∷ "insufficient quota" ∷ "insufficient_quota" ∷ "billing" ∷ "payment required"
    ∷ "quota exhausted" ∷ "exceeded your current quota" ∷ "account balance" ∷ []

abbrev pub capability_mismatch_keywords : List String
capability_mismatch_keywords =
    "model not found" ∷ "model_not_found" ∷ "model not exist" ∷ "model does not exist"
    ∷ "model doesn't exist" ∷ "does not exist" ∷ "doesn't exist" ∷ "no such model" ∷ "unknown model"
    ∷ "invalid model" ∷ "invalid_model" ∷ "model not enabled" ∷ "模型不存在" ∷ "无此模型" ∷ "该模型不存在"
    ∷ "模型未开通" ∷ "模型不存在或已下线" ∷ []

unfoldable pub contains_any : Library → String → List String → Bool
contains_any lib text [] = false
contains_any lib text (w ∷ ws) = lib.contains text w || contains_any lib text ws

unfoldable pub is_recoverable_billing_error : Library → String → Bool
unfolding contains_any
is_recoverable_billing_error lib body =
    if str_eq body ""
    then false
    else contains_any lib (lib.to_lower body) recoverable_billing_keywords

unfoldable pub is_capability_mismatch : Library → String → Bool
unfolding contains_any
is_capability_mismatch lib body =
    if str_eq body ""
    then false
    else contains_any lib (lib.to_lower body) capability_mismatch_keywords
