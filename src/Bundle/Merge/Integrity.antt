-- ===== src/Bundle/Merge/Integrity.antt =====
-- internal/bundle/merge.go: the references in a merged bundle.
use api_gateway.Prelude.{
  ◌≡◌, Bool, true, ◌&&◌, List, [], ◌∷◌, String, keep_if, All, Bool-cases, inl, inr,
}
use api_gateway.Bundle.{
  CredentialBinding, Rapi, EndpointRef, platform_key, string_eq, endpoint_eq, binding_eq,
}
use api_gateway.Bundle.Merge.{
  Library, ConflictRule, is_center_first, Definitions, has_key, platform_ref, credential_ref,
  rapi_ref, binding_ref, merge_rows, merge_platforms, merge_credentials, merge_rapis,
  merge_bindings, merge_definitions,
}
use api_gateway.Bundle.Merge.Union.{
  HasDistinctKeys, merge_rows-HasDistinctKeys, keep_if-HasDistinctKeys,
}

keep_if_self {ℓ} :
    {A : Type ℓ} (ok : A → Bool) (rs : List A) → All (λ r. ok r ≡ true) (keep_if ok rs)
keep_if_self ok [] = tt
keep_if_self ok (r ∷ rs) = elim (Bool-cases (ok r)) [
  | inl e ↦ rw e (e, keep_if_self ok rs)
  | inr e ↦ rw e (keep_if_self ok rs)
]

merge_rapis-known :
    (lib : Library) (rule : ConflictRule) (ok : String → Bool) (center local : List Rapi)
    → All
        (λ (r : Rapi). ok (platform_key r.platform_base_url) ≡ true)
        (merge_rapis lib rule ok center local).0
unfolding merge_rapis
merge_rapis-known lib rule ok center local =
    keep_if_self (λ (r : Rapi). ok (platform_key r.platform_base_url))
      (merge_rows rapi_ref lib.diff_rapi (is_center_first rule) center local).0

merge_bindings-known :
    (lib : Library) (rule : ConflictRule) (endpoint_ok : EndpointRef → Bool)
    (credential_ok : String → Bool) (center local : List CredentialBinding)
    → All
        (λ (b : CredentialBinding).
          (endpoint_ok (binding_ref lib b).endpoint && credential_ok (binding_ref lib b).token_hash)
          ≡ true)
        (merge_bindings lib rule endpoint_ok credential_ok center local).0
unfolding merge_bindings
merge_bindings-known lib rule endpoint_ok credential_ok center local =
    keep_if_self
      (λ (b : CredentialBinding).
        endpoint_ok (binding_ref lib b).endpoint && credential_ok (binding_ref lib b).token_hash)
      (merge_rows (binding_ref lib) lib.diff_binding (is_center_first rule) center local).0

-- Every kind of row has distinct keys, every endpoint's platform is there, and every binding's endpoint and
-- credential are there.
pub record IsIntact (lib : Library) (d : Definitions) : Type 0 where
  pub platforms_distinct : HasDistinctKeys platform_ref d.platforms
  pub credentials_distinct : HasDistinctKeys (credential_ref lib) d.credentials
  pub rapis_distinct : HasDistinctKeys rapi_ref d.rapis
  pub bindings_distinct : HasDistinctKeys (binding_ref lib) d.bindings
  pub rapis_known :
      All
        (λ (r : Rapi). has_key platform_ref d.platforms (platform_key r.platform_base_url) ≡ true)
        d.rapis
  pub bindings_known :
      All
        (λ (b : CredentialBinding).
          (has_key rapi_ref d.rapis (binding_ref lib b).endpoint
            && has_key (credential_ref lib) d.credentials (binding_ref lib b).token_hash)
          ≡ true)
        d.bindings

-- Whatever the two sides hold and whichever rule is chosen, the merged platforms, credentials, endpoints
-- and bindings have distinct natural keys, and no endpoint or binding refers to a missing row.
pub merge_definitions-IsIntact :
    (lib : Library) (rule : ConflictRule) (center local : Definitions)
    → IsIntact lib (merge_definitions lib rule center local)
unfolding merge_definitions merge_platforms merge_credentials merge_rapis merge_bindings
merge_definitions-IsIntact lib rule center local = record {
  platforms_distinct =
      merge_rows-HasDistinctKeys platform_ref lib.diff_platform first center.platforms
        local.platforms;
  credentials_distinct =
      merge_rows-HasDistinctKeys (credential_ref lib) lib.diff_credential first center.credentials
        local.credentials;
  rapis_distinct =
      keep_if-HasDistinctKeys rapi_ref lib.diff_rapi _ _
        (merge_rows-HasDistinctKeys rapi_ref lib.diff_rapi first center.rapis local.rapis);
  bindings_distinct = keep_if-HasDistinctKeys (binding_ref lib) lib.diff_binding _ _ (
      merge_rows-HasDistinctKeys (binding_ref lib) lib.diff_binding first center.bindings
        local.bindings);
  rapis_known =
      merge_rapis-known lib rule
        (has_key platform_ref (merge_platforms lib rule center.platforms local.platforms).0)
        center.rapis local.rapis;
  bindings_known =
      merge_bindings-known lib rule
        (has_key rapi_ref (merge_definitions lib rule center local).rapis)
        (has_key (credential_ref lib)
          (merge_credentials lib rule center.credentials local.credentials).0)
        center.bindings local.bindings;
}
  where
    first : Bool
    first = is_center_first rule
