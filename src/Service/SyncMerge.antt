-- ===== src/Service/SyncMerge.antt =====
-- internal/service/sync_merge.go: the union of the center's bundle and the local one, in which local rows
-- win. MergeBundles repeats one pair of loops for six kinds of row: that pair is `union_rows` here. A row that
-- a loop appends is a row of its result, and the map that it fills from the local rows is an association list.
pub mod Rows
pub mod Unique
pub mod Adds
pub mod Lookup
pub mod News
pub mod Told
use text.Mathlib.Text.{◌==◌ as str_eq}
use text.Mathlib.TextEquality.{eq_iff}
use Prim.Native.String.{◌++◌ as ◌<>◌}
use api_gateway.Prelude.{
  ℕ, suc, ◌+◌, ◌-◌, ◌/◌, ◌≡◌, ◌↔◌, Bool, true, false, not, ◌&&◌, ◌||◌, Option, none, some, List, [],
  ◌∷◌, ◌++◌, String, arith, if◌then◌else◌, Eq, same, get, put, length, ltb, leb, ◌==◌, ℤ, pos,
  negsuc, eq_ℤ,
}
use api_gateway.Clock.{Time, second}
use api_gateway.Bundle.{
  Bundle, Platform, Credential, CredentialBinding, Rapi, Lapi, LapiRapiOrder, EndpointRef,
  BindingRef, string_eq, endpoint_eq, binding_eq, eq_endpoint, eq_endpoint_iff,
}

-- What the code takes from Go: `reflect.DeepEqual` on the rows of a kind, and the length and the prefixes of a
-- text, in bytes.
pub record Library : Type 0 where
  pub equal_rapi : Rapi → Rapi → Bool
  pub equal_lapi : Lapi → Lapi → Bool
  pub equal_binding : CredentialBinding → CredentialBinding → Bool
  pub equal_order : LapiRapiOrder → LapiRapiOrder → Bool
  pub len : String → ℕ
  pub prefix : String → ℕ → String

pub record MergeConflict : Type 0 where
  pub table : String
  pub key : String

pub record MergeSummary : Type 0 where
  pub merged_at : String
  pub center_ver : ℤ
  pub from_center : List (String × ℕ)
  pub kept_local : List (String × ℕ)
  pub conflicts : List MergeConflict
  pub adds_to_center : Bool
  pub pushed_back : Bool
  pub push_error : String

abbrev pub max_merge_conflicts : ℕ
max_merge_conflicts = 20

-- `t.Unix()`: the seconds since 1970, rounded down.
abbrev pub unix : Time → ℤ
unix t =
    let s = t / second in
    if leb 62135596800 s then pos (s - 62135596800) else negsuc (62135596800 - s - 1)

abbrev pub canon_time : Option Time → ℤ
canon_time none = pos 0
canon_time (some t) = unix t

abbrev eq_bool : Bool → Bool → Bool
eq_bool true b = b
eq_bool false b = not b

unfoldable pub platform_equal : Platform → Platform → Bool
platform_equal a b =
    str_eq a.base_url b.base_url
    && str_eq a.name b.name
    && str_eq a.token b.token
    && eq_ℤ (canon_time a.last_token_fetch) (canon_time b.last_token_fetch)
    && eq_bool a.enabled b.enabled
    && str_eq a.notes b.notes
    && str_eq a.supported_formats b.supported_formats
    && str_eq a.format_endpoints b.format_endpoints
    && str_eq a.custom_headers b.custom_headers
    && str_eq a.login_account b.login_account
    && eq_ℤ a.sort_order b.sort_order

unfoldable pub credential_equal : Credential → Credential → Bool
credential_equal a b =
    str_eq a.token_hash b.token_hash
    && str_eq a.platform_base_url b.platform_base_url
    && eq_ℤ a.sort_order b.sort_order
    && str_eq a.token b.token
    && str_eq a.label b.label
    && eq_bool a.enabled b.enabled
    && eq_ℤ (canon_time a.expires_at) (canon_time b.expires_at)
    && eq_bool a.is_free b.is_free

unfoldable pub add_conflict : String → String → MergeSummary → MergeSummary
add_conflict table key s =
    if ltb (length s.conflicts) max_merge_conflicts
    then record s { conflicts = s.conflicts ++ (record { table = table; key = key } ∷ []) }
    else s

unfoldable pub short_hash : Library → String → String
short_hash lib h = if leb (lib.len h) 12 then h else lib.prefix h 12

-- `counts[table]++`.
unfoldable pub increment : String → List (String × ℕ) → List (String × ℕ)
unfolding get put
increment table counts = put table (elim (get table counts) [ none ↦ 1 | some n ↦ suc n ]) counts

module _ {A K : Type 0} ⦃eq : Eq K⦄ (key : A → K) where
  -- `indexPlatform` and the five functions like it.
  unfoldable pub index_row : List A → K → Option A
  index_row [] k = none
  index_row (p ∷ ps) k = if same (key p) k then some p else index_row ps k

  unfoldable pub row_map : List A → List (K × A) → List (K × A)
  unfolding put
  row_map [] m = m
  row_map (p ∷ ps) m = row_map ps (put (key p) p m)

module _ {A K : Type 0} ⦃eq : Eq K⦄ (key : A → K) (table : String) where
  unfoldable pub scan_local : List A → List A → MergeSummary → MergeSummary
  unfolding index_row increment
  scan_local center [] s = s
  scan_local center (p ∷ ps) s = elim (index_row key center (key p)) [
    | some q ↦ scan_local center ps s
    | none ↦
        scan_local center ps
          (record s { kept_local = increment table s.kept_local; adds_to_center = true })
  ]

module _ {A K : Type 0} ⦃eq : Eq K⦄ (key : A → K) (equal : A → A → Bool) (table : String)
    (label : A → String) where
  -- The rows that only the center has, and the summary.
  unfoldable pub scan_center : List (K × A) → List A → MergeSummary → List A × MergeSummary
  unfolding get add_conflict increment
  scan_center locals [] s = ([], s)
  scan_center locals (p ∷ ps) s = elim (get (key p) locals) [
    | some q ↦ scan_center locals ps (
        if not (equal q p)
        then record (add_conflict table (label p) s) { adds_to_center = true }
        else s)
    | none ↦
        let (rows, t) =
          scan_center locals ps (record s { from_center = increment table s.from_center }) in
        (p ∷ rows, t)
  ]

  unfoldable pub union_rows : List A → List A → MergeSummary → List A × MergeSummary
  unfolding row_map scan_local scan_center
  union_rows local center s =
      let (rows, t) =
        scan_center (row_map key local []) center (scan_local key table center local s) in
      (local ++ rows, t)

-- The key of an order: the name of the LAPI and the endpoint.
pub record OrderKey : Type 0 where
  pub lapi : String
  pub endpoint : EndpointRef

abbrev pub eq_order : OrderKey → OrderKey → Bool
eq_order a b = str_eq a.lapi b.lapi && eq_endpoint a.endpoint b.endpoint

pub eq_order_iff : (a b : OrderKey) → (eq_order a b ≡ true) ↔ (a ≡ b)
eq_order_iff a b = ground (arith, eq_iff a.lapi b.lapi, eq_endpoint_iff a.endpoint b.endpoint)

instance abbrev pub order_eq : Eq OrderKey
order_eq = record { beq = eq_order; beq_iff = eq_order_iff }

abbrev pub endpoint : String → String → EndpointRef
endpoint base_url model = record { base_url = base_url; model = model }

abbrev pub rapi_key : Rapi → EndpointRef
rapi_key r = endpoint r.platform_base_url r.model

abbrev pub binding_key : CredentialBinding → BindingRef
binding_key b = record {
  endpoint = endpoint b.platform_base_url b.model;
  token_hash = b.token_hash;
}

abbrev pub order_key : LapiRapiOrder → OrderKey
order_key o = record {
  lapi = o.lapi_alias;
  endpoint = endpoint o.rapi_platform_base_url o.rapi_model;
}

abbrev pub empty_summary : String → MergeSummary
empty_summary now = record {
  merged_at = now;
  center_ver = pos 0;
  from_center = [];
  kept_local = [];
  conflicts = [];
  adds_to_center = false;
  pushed_back = false;
  push_error = "";
}

-- `now` is `time.Now().Format(time.RFC3339)`.
unfoldable pub merge_bundles : Library → String → Bundle → Bundle → Bundle × MergeSummary
unfolding union_rows platform_equal credential_equal short_hash
merge_bundles lib now local center =
    let (platforms, s1) =
      union_rows (λ p. p.base_url) platform_equal "platform" (λ p. p.base_url) local.platforms
        center.platforms (empty_summary now) in
    let (credentials, s2) =
      union_rows (λ c. c.token_hash) credential_equal "credential"
        (λ c. short_hash lib c.token_hash) local.credentials center.credentials s1 in
    let (rapis, s3) =
      union_rows rapi_key lib.equal_rapi "rapi" (λ r. r.platform_base_url <> "#" <> r.model)
        local.rapis center.rapis s2 in
    let (lapis, s4) =
      union_rows (λ l. l.alias) lib.equal_lapi "lapi" (λ l. l.alias) local.lapis center.lapis s3 in
    let (bindings, s5) =
      union_rows binding_key lib.equal_binding "endpoint_credential"
        (λ b. b.platform_base_url <> "#" <> b.model <> "#" <> short_hash lib b.token_hash)
        local.bindings center.bindings s4 in
    let (orders, s6) =
      union_rows order_key lib.equal_order "lapi_rapi_order"
        (λ o. o.lapi_alias <> "#" <> o.rapi_platform_base_url <> "#" <> o.rapi_model)
        local.lapi_rapi_order center.lapi_rapi_order s5 in
    (
      record {
        platforms = platforms;
        credentials = credentials;
        rapis = rapis;
        lapis = lapis;
        lapi_rapi_order = orders;
        bindings = bindings;
      },
      s6,
    )
