-- ===== src/Bundle.antt =====
-- internal/bundle/bundle.go: the definitions that a bundle carries, and their natural keys.
pub mod Merge
use text.Mathlib.Text.{◌==◌ as str_eq}
use text.Mathlib.TextEquality.{eq_iff}
use api_gateway.Prelude.{◌≡◌, ◌↔◌, Bool, true, ◌&&◌, Option, List, String, arith, Eq, ℤ}
use api_gateway.Clock.{Time}

pub record Platform : Type 0 where
  pub base_url : String
  pub name : String
  pub token : String
  pub last_token_fetch : Option Time
  pub enabled : Bool
  pub notes : String
  pub supported_formats : String
  pub format_endpoints : String
  pub custom_headers : String
  pub login_account : String
  pub sort_order : ℤ

pub record Credential : Type 0 where
  pub token_hash : String
  pub platform_base_url : String
  pub sort_order : ℤ
  pub token : String
  pub label : String
  pub enabled : Bool
  pub expires_at : Option Time
  pub is_free : Bool

pub record CredentialBinding : Type 0 where
  pub platform_base_url : String
  pub model : String
  pub token_hash : String
  pub rpm_limit : ℤ
  pub rph_limit : ℤ
  pub rpd_limit : ℤ
  pub tpm_limit : ℤ
  pub tph_limit : ℤ
  pub tpd_limit : ℤ
  pub enabled : Bool

pub record Rapi : Type 0 where
  pub platform_base_url : String
  pub model : String
  pub alias : String
  pub enabled : Bool
  pub base_cost : ℤ
  pub high_cost : ℤ
  pub rpm_limit : ℤ
  pub rph_limit : ℤ
  pub rpd_limit : ℤ
  pub tpm_limit : ℤ
  pub tph_limit : ℤ
  pub tpd_limit : ℤ
  pub time_period_rules : String
  pub supported_formats : String
  pub custom_headers : String
  pub source : String
  pub vendor : String
  pub series : String
  pub model_name : String
  pub version : String
  pub suffix : String
  pub notes : String
  pub sort_order : ℤ

pub record Lapi : Type 0 where
  pub alias : String
  pub notes : String
  pub enabled : Bool
  pub vendor : String
  pub series : String
  pub model_name : String
  pub version : String
  pub suffix : String

pub record LapiRapiOrder : Type 0 where
  pub lapi_alias : String
  pub rapi_platform_base_url : String
  pub rapi_model : String
  pub order_index : ℤ

pub record Bundle : Type 0 where
  pub platforms : List Platform
  pub credentials : List Credential
  pub rapis : List Rapi
  pub lapis : List Lapi
  pub lapi_rapi_order : List LapiRapiOrder
  pub bindings : List CredentialBinding

-- `platformKey`, which deliberately normalises nothing.
abbrev pub platform_key : String → String
platform_key base_url = base_url

-- internal/bundle/merge.go: EndpointRef and BindingRef, whose credential is its token hash.
pub record EndpointRef : Type 0 where
  pub base_url : String
  pub model : String

pub record BindingRef : Type 0 where
  pub endpoint : EndpointRef
  pub token_hash : String

instance abbrev pub string_eq : Eq String
string_eq = record { beq = str_eq; beq_iff = eq_iff }

abbrev pub eq_endpoint : EndpointRef → EndpointRef → Bool
eq_endpoint a b = str_eq a.base_url b.base_url && str_eq a.model b.model

pub eq_endpoint_iff : (a b : EndpointRef) → (eq_endpoint a b ≡ true) ↔ (a ≡ b)
eq_endpoint_iff a b = ground (arith, eq_iff a.base_url b.base_url, eq_iff a.model b.model)

instance abbrev pub endpoint_eq : Eq EndpointRef
endpoint_eq = record { beq = eq_endpoint; beq_iff = eq_endpoint_iff }

abbrev pub eq_binding : BindingRef → BindingRef → Bool
eq_binding a b = eq_endpoint a.endpoint b.endpoint && str_eq a.token_hash b.token_hash

pub eq_binding_iff : (a b : BindingRef) → (eq_binding a b ≡ true) ↔ (a ≡ b)
eq_binding_iff a b =
    ground (arith, eq_endpoint_iff a.endpoint b.endpoint, eq_iff a.token_hash b.token_hash)

instance abbrev pub binding_eq : Eq BindingRef
binding_eq = record { beq = eq_binding; beq_iff = eq_binding_iff }
