-- ===== src/Formats.antt =====
-- internal/apiformat/format.go and RAPIWithPlatform in internal/models/models.go: which protocol
-- formats an endpoint speaks, and the row that the scheduler reads.
use text.Mathlib.Text.{◌==◌ as str_eq}
use api_gateway.Prelude.{
  Bool, false, not, ◌&&◌, ◌||◌, Option, none, some, List, [], ◌∷◌, String, if◌then◌else◌, ℤ,
}
use api_gateway.Entity.{PlatformKey}
use api_gateway.Host.{Host}

-- models.RAPIWithPlatform, with the fields that scheduling and forwarding read.
pub record RapiRow : Type 0 where
  pub id : ℤ
  pub alias : String
  pub model : String
  pub platform_id : ℤ
  pub source : String
  pub key_ids : String
  pub base_url : String
  pub token : String
  pub platform_format_endpoints : String
  pub keys : List PlatformKey
  pub enabled : Bool
  pub available : Bool
  pub base_cost : ℤ
  pub high_cost : ℤ
  pub rpm_limit : ℤ
  pub rph_limit : ℤ
  pub rpd_limit : ℤ
  pub tpm_limit : ℤ
  pub tph_limit : ℤ
  pub tpd_limit : ℤ
  pub supported_formats : String
  pub platform_supported_formats : String
  pub time_period_rules : String
  pub order_index : ℤ

abbrev pub format_openai : String
format_openai = "openai"

or_openai : Option (List String) → List String
or_openai none = format_openai ∷ []
or_openai (some []) = format_openai ∷ []
or_openai (some (f ∷ fs)) = f ∷ fs

unfoldable pub parse_formats : Host → String → List String
unfolding or_openai
parse_formats host json =
    if str_eq json "" then format_openai ∷ [] else or_openai (host.parse_strings json)

unfoldable pub supports_format : List String → String → Bool
supports_format [] f = false
supports_format (v ∷ vs) f = str_eq v f || supports_format vs f

unfoldable pub supports_api_format : Host → RapiRow → String → Bool
unfolding parse_formats supports_format
supports_api_format host r format =
    if not (str_eq r.platform_supported_formats "")
      && not (str_eq r.platform_supported_formats "[]")
    then supports_format (parse_formats host r.platform_supported_formats) format
    else supports_format (parse_formats host r.supported_formats) format
