-- ===== src/Tests/Bundles.antt =====
-- Concrete runs of the theorems on the merging of bundles.
use api_gateway.Prelude.{◌≡◌, ◌↔◌, true, ◌&&◌, none, List, [], ◌∷◌, String, if◌then◌else◌, ℤ, pos}
use api_gateway.Bundle.{Platform, CredentialBinding, string_eq, binding_eq}
use api_gateway.Bundle.Merge.{
  Library, center_wins, is_center_first, Definitions, has_key, binding_ref, merge_bindings,
  merge_definitions,
}
use api_gateway.Bundle.Merge.Chains.{is_subsequence, IsSublist, is_subsequence_iff}
use api_gateway.Bundle.Merge.Union.{HasDistinctKeys, first_of, chosen, merge_bindings-chosen}
use api_gateway.Bundle.Merge.Integrity.{IsIntact, merge_definitions-IsIntact}

abbrev platform : String → String → Platform
platform url name = record {
  base_url = url;
  name = name;
  token = "";
  last_token_fetch = none;
  enabled = true;
  notes = "";
  supported_formats = "[]";
  format_endpoints = "{}";
  custom_headers = "[]";
  login_account = "";
  sort_order = pos 0;
}

abbrev binding : String → ℤ → CredentialBinding
binding hash limit = record {
  platform_base_url = "https://a";
  model = "m";
  token_hash = hash;
  rpm_limit = limit;
  rph_limit = pos 0;
  rpd_limit = pos 0;
  tpm_limit = pos 0;
  tph_limit = pos 0;
  tpd_limit = pos 0;
  enabled = true;
}

-- A comparison that names a field for any two rows.
abbrev library : Library
library = record {
  trim_space = λ s. s;
  diff_platform = λ a b. "*" ∷ [];
  diff_credential = λ a b. "*" ∷ [];
  diff_rapi = λ a b. "*" ∷ [];
  diff_binding = λ a b. "*" ∷ [];
}

abbrev center_platforms : List Platform
center_platforms = platform "https://a" "A" ∷ platform "https://b" "B" ∷ []

abbrev local_platforms : List Platform
local_platforms = platform "https://a" "A at home" ∷ platform "https://c" "C" ∷ []

-- The credential "y" is gone.
merge_bindings-chosen_example :
    let rows =
      (merge_bindings library center_wins
        (λ e. true)
        (λ h. has_key (λ (s : String). s) ("x" ∷ []) h)
        (binding "x" (pos 5) ∷ [])
        (binding "x" (pos 9) ∷ binding "y" (pos 1) ∷ [])).0 in
    HasDistinctKeys (binding_ref library) rows
    × (first_of (binding_ref library) (binding_ref library (binding "y" (pos 1))) rows ≡ (
        if true && has_key (λ (s : String). s) ("x" ∷ []) "y"
        then chosen
            (binding_ref library)
            (is_center_first center_wins)
            (binding_ref library (binding "y" (pos 1)))
            (binding "x" (pos 5) ∷ [])
            (binding "x" (pos 9) ∷ binding "y" (pos 1) ∷ [])
        else none))
merge_bindings-chosen_example =
    merge_bindings-chosen library center_wins (λ e. true)
      (λ h. has_key (λ (s : String). s) ("x" ∷ []) h) (binding "x" (pos 5) ∷ [])
      (binding "x" (pos 9) ∷ binding "y" (pos 1) ∷ []) (binding_ref library (binding "y" (pos 1)))
      (λ a b e. cc)

-- A local binding whose endpoint nobody has.
abbrev center : Definitions
center = record { platforms = center_platforms; credentials = []; rapis = []; bindings = [] }

abbrev local : Definitions
local = record {
  platforms = local_platforms;
  credentials = [];
  rapis = [];
  bindings = binding "x" (pos 5) ∷ [];
}

merge_definitions-IsIntact_example :
    IsIntact library (merge_definitions library center_wins center local)
merge_definitions-IsIntact_example = merge_definitions-IsIntact library center_wins center local

-- The nodes "b" and "d" of a chain of four.
is_subsequence_iff_example :
    (is_subsequence ("b" ∷ "d" ∷ []) ("a" ∷ "b" ∷ "c" ∷ "d" ∷ []) ≡ true)
    ↔ IsSublist ("b" ∷ "d" ∷ []) ("a" ∷ "b" ∷ "c" ∷ "d" ∷ [])
is_subsequence_iff_example = is_subsequence_iff ("b" ∷ "d" ∷ []) ("a" ∷ "b" ∷ "c" ∷ "d" ∷ [])
