-- ===== src/Service/SyncMerge/Told.antt =====
-- internal/service/sync_merge.go: what `adds_to_center` tells of the fields of the rows.
use api_gateway.Prelude.{◌≡◌, true, Option, none, some, String}
use api_gateway.Bundle.{
  Bundle, Platform, Credential, EndpointRef, BindingRef, string_eq, endpoint_eq, binding_eq,
}
use api_gateway.Service.SyncMerge.{
  Library, OrderKey, index_row, rapi_key, binding_key, order_key, order_eq, canon_time,
}

-- All fields of two platforms are equal, the times to the second.
pub record SamePlatform (a b : Platform) : Type 0 where
  pub base_url : a.base_url ≡ b.base_url
  pub name : a.name ≡ b.name
  pub token : a.token ≡ b.token
  pub notes : a.notes ≡ b.notes
  pub supported_formats : a.supported_formats ≡ b.supported_formats
  pub format_endpoints : a.format_endpoints ≡ b.format_endpoints
  pub custom_headers : a.custom_headers ≡ b.custom_headers
  pub login_account : a.login_account ≡ b.login_account
  pub enabled : a.enabled ≡ b.enabled
  pub sort_order : a.sort_order ≡ b.sort_order
  pub last_token_fetch : canon_time a.last_token_fetch ≡ canon_time b.last_token_fetch

-- All fields of two credentials are equal, the times to the second.
pub record SameCredential (a b : Credential) : Type 0 where
  pub token_hash : a.token_hash ≡ b.token_hash
  pub platform_base_url : a.platform_base_url ≡ b.platform_base_url
  pub token : a.token ≡ b.token
  pub label : a.label ≡ b.label
  pub enabled : a.enabled ≡ b.enabled
  pub is_free : a.is_free ≡ b.is_free
  pub sort_order : a.sort_order ≡ b.sort_order
  pub expires_at : canon_time a.expires_at ≡ canon_time b.expires_at

-- Two results of a search are both nothing, or rows that are related.
abbrev pub Matches : {A : Type 0} → (A → A → Type 0) → Option A → Option A → Type 0
Matches R none none = Unit
Matches R (some a) (some b) = R a b
Matches R none (some b) = ⊥
Matches R (some a) none = ⊥

-- Under each natural key two bundles have no row, or the same row: platforms and credentials by their fields,
-- the other kinds as `reflect.DeepEqual` compares them.
pub record IsSame (lib : Library) (a b : Bundle) : Type 0 where
  pub platforms :
      (k : String)
      → Matches SamePlatform
          (index_row (λ p. p.base_url) a.platforms k)
          (index_row (λ p. p.base_url) b.platforms k)
  pub credentials :
      (k : String)
      → Matches SameCredential
          (index_row (λ c. c.token_hash) a.credentials k)
          (index_row (λ c. c.token_hash) b.credentials k)
  pub rapis :
      (k : EndpointRef)
      → Matches
          (λ x y. lib.equal_rapi x y ≡ true)
          (index_row rapi_key a.rapis k)
          (index_row rapi_key b.rapis k)
  pub lapis :
      (k : String)
      → Matches
          (λ x y. lib.equal_lapi x y ≡ true)
          (index_row (λ l. l.alias) a.lapis k)
          (index_row (λ l. l.alias) b.lapis k)
  pub bindings :
      (k : BindingRef)
      → Matches
          (λ x y. lib.equal_binding x y ≡ true)
          (index_row binding_key a.bindings k)
          (index_row binding_key b.bindings k)
  pub orders :
      (k : OrderKey)
      → Matches
          (λ x y. lib.equal_order x y ≡ true)
          (index_row order_key a.lapi_rapi_order k)
          (index_row order_key b.lapi_rapi_order k)
