-- ===== src/Bundle/Merge.antt =====
-- internal/bundle/merge.go: the unions by natural key of the two sides of a merge. The four functions of
-- the code have one body over different rows, which is `merge_rows` here. The code's map from a key to a
-- place in `out` holds the only row with that key, which is found by its key here.
pub mod Union
pub mod Integrity
pub mod Chains
use api_gateway.Prelude.{
  Bool, true, false, not, ◌&&◌, ◌||◌, List, [], ◌∷◌, ◌++◌, map, String, if◌then◌else◌, Eq, same,
  keep_if,
}
use api_gateway.Bundle.{
  Platform, Credential, CredentialBinding, Rapi, EndpointRef, BindingRef, platform_key, string_eq,
  endpoint_eq, binding_eq,
}

-- What the code takes from Go's library: `strings.TrimSpace`, and for each type of row the names of the
-- fields in which two rows differ, by package reflect.
pub record Library : Type 0 where
  pub trim_space : String → String
  pub diff_platform : Platform → Platform → List String
  pub diff_credential : Credential → Credential → List String
  pub diff_rapi : Rapi → Rapi → List String
  pub diff_binding : CredentialBinding → CredentialBinding → List String

pub data ConflictRule : Type 0 where
  center_wins local_wins : ConflictRule

abbrev pub is_center_first : ConflictRule → Bool
is_center_first center_wins = true
is_center_first local_wins = false

-- A conflict of one kind of row: its key, which the report holds as a text, and the fields that differ. The
-- labels that the report adds to credentials for display are left out.
pub record Conflict {ℓ} (K : Type ℓ) : Type ℓ where
  pub key : K
  pub fields : List String

module _ {ℓ} {A K : Type ℓ} ⦃eq : Eq K⦄ (key : A → K) (diff : A → A → List String) where
  -- The closure `add`: the rows after it, the conflict that it reports, and whether the row was new.
  unfoldable pub add_row : Bool → A → List A → List A × List (Conflict K) × Bool
  add_row center_first p [] = (p ∷ [], [], true)
  add_row center_first p (q ∷ out) =
      let (rest, conflicts, fresh) = add_row center_first p out in
      if same (key q) (key p)
      then elim (diff q p) [
        | [] ↦ (q ∷ out, [], false)
        | f ∷ fs ↦ (
          (if center_first then q else p) ∷ out,
          record { key = key p; fields = f ∷ fs } ∷ [],
          false,
        )
      ]
      else (q ∷ rest, conflicts, fresh)

  -- The rows, conflicts and keys of new rows after a list of rows is added.
  unfoldable pub add_rows : Bool → List A → List A → List A × List (Conflict K) × List K
  unfolding add_row
  add_rows center_first [] out = (out, [], [])
  add_rows center_first (p ∷ ps) out =
      let (out', c, fresh) = add_row center_first p out in
      let (rows, cs, added) = add_rows center_first ps out' in
      (rows, c ++ cs, if fresh then key p ∷ added else added)

  -- The union of the center's and the local rows, the conflicts, and the keys that only the local side has.
  unfoldable pub merge_rows : Bool → List A → List A → List A × List (Conflict K) × List K
  unfolding add_rows
  merge_rows center_first center local =
      let (base, cs, _) = add_rows center_first center [] in
      let (rows, ds, local_only) = add_rows center_first local base in (rows, cs ++ ds, local_only)

abbrev pub rapi_ref : Rapi → EndpointRef
rapi_ref r = record { base_url = platform_key r.platform_base_url; model = r.model }

abbrev pub binding_ref : Library → CredentialBinding → BindingRef
binding_ref lib b = record {
  endpoint = record { base_url = platform_key b.platform_base_url; model = b.model };
  token_hash = lib.trim_space b.token_hash;
}

unfoldable pub merge_platforms :
    Library
    → ConflictRule
    → List Platform
    → List Platform
    → List Platform × List (Conflict String) × List String
unfolding merge_rows
merge_platforms lib rule center local =
    merge_rows (λ p. platform_key p.base_url) lib.diff_platform (is_center_first rule) center local

unfoldable pub merge_credentials :
    Library
    → ConflictRule
    → List Credential
    → List Credential
    → List Credential × List (Conflict String) × List String
unfolding merge_rows
merge_credentials lib rule center local =
    merge_rows (λ c. lib.trim_space c.token_hash) lib.diff_credential (is_center_first rule) center
      local

-- With the rows whose platform is gone dropped: the rows, the references of the dropped ones, the
-- conflicts and the references that only the local side has.
unfoldable pub merge_rapis :
    Library
    → ConflictRule
    → (String → Bool)
    → List Rapi
    → List Rapi
    → List Rapi × List EndpointRef × List (Conflict EndpointRef) × List EndpointRef
unfolding merge_rows
merge_rapis lib rule platform_ok center local =
    let (picked, cs, local_only) =
      merge_rows rapi_ref lib.diff_rapi (is_center_first rule) center local in
    (
      keep_if (λ r. platform_ok (platform_key r.platform_base_url)) picked,
      map rapi_ref (keep_if (λ r. not (platform_ok (platform_key r.platform_base_url))) picked),
      cs,
      local_only,
    )

unfoldable pub merge_bindings :
    Library
    → ConflictRule
    → (EndpointRef → Bool)
    → (String → Bool)
    → List CredentialBinding
    → List CredentialBinding
    → List CredentialBinding × List BindingRef × List (Conflict BindingRef) × List BindingRef
unfolding merge_rows
merge_bindings lib rule endpoint_ok credential_ok center local =
    let (picked, cs, local_only) =
      merge_rows (binding_ref lib) lib.diff_binding (is_center_first rule) center local in
    let ok : CredentialBinding → Bool = λ b.
      endpoint_ok (binding_ref lib b).endpoint && credential_ok (binding_ref lib b).token_hash in
    (keep_if ok picked, map (binding_ref lib) (keep_if (λ b. not (ok b)) picked), cs, local_only)

-- The rows of a bundle that name platforms, credentials, endpoints and bindings.
pub record Definitions : Type 0 where
  pub platforms : List Platform
  pub credentials : List Credential
  pub rapis : List Rapi
  pub bindings : List CredentialBinding

-- Whether a row of a list has a key: a lookup in `platOK`, `credOK` or `epOK`.
unfoldable pub has_key {ℓ} : {A K : Type ℓ} ⦃eq : Eq K⦄ → (A → K) → List A → K → Bool
has_key key [] k = false
has_key key (r ∷ rs) k = same (key r) k || has_key key rs k

abbrev pub platform_ref : Platform → String
platform_ref p = platform_key p.base_url

abbrev pub credential_ref : Library → Credential → String
credential_ref lib c = lib.trim_space c.token_hash

-- The part of `Merge` that comes before the local APIs and their chains.
unfoldable pub merge_definitions : Library → ConflictRule → Definitions → Definitions → Definitions
unfolding merge_platforms merge_credentials merge_rapis merge_bindings has_key
merge_definitions lib rule center local =
    let platforms = (merge_platforms lib rule center.platforms local.platforms).0 in
    let credentials = (merge_credentials lib rule center.credentials local.credentials).0 in
    let rapis =
      (merge_rapis lib rule (has_key platform_ref platforms) center.rapis local.rapis).0 in
    record {
      platforms = platforms;
      credentials = credentials;
      rapis = rapis;
      bindings =
          (merge_bindings lib rule (has_key rapi_ref rapis)
            (has_key (credential_ref lib) credentials) center.bindings local.bindings).0;
    }
