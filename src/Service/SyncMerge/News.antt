-- ===== src/Service/SyncMerge/News.antt =====
-- internal/service/sync_merge.go: when MergeBundles finds something that is new to the center.
use Prim.Native.String.{◌++◌ as ◌<>◌}
use text.Mathlib.Text.{◌==◌ as str_eq}
use text.Mathlib.TextEquality.{eq_iff}
use api_gateway.Prelude.{◌≡◌, ◌↔◌, refl, true, false, String, arith, ℤ, eq_ℤ, eq_ℤ_iff}
use api_gateway.Bundle.{
  Bundle, Platform, Credential, CredentialBinding, Rapi, Lapi, LapiRapiOrder, EndpointRef,
  BindingRef, string_eq, endpoint_eq, binding_eq,
}
use api_gateway.Service.SyncMerge.{
  Library, OrderKey, index_row, union_rows, merge_bundles, platform_equal, credential_equal,
  short_hash, rapi_key, binding_key, order_key, order_eq, empty_summary, canon_time,
}
use api_gateway.Service.SyncMerge.Unique.{AreUnique}
use api_gateway.Service.SyncMerge.Adds.{Alike, union_rows-Alike}

-- No table has two rows with the same natural key, which the tables' unique indexes and the validation of
-- a bundle provide.
pub record HasUniqueKeys (b : Bundle) : Type 0 where
  pub platforms : AreUnique (λ p. p.base_url) b.platforms
  pub credentials : AreUnique (λ c. c.token_hash) b.credentials
  pub rapis : AreUnique rapi_key b.rapis
  pub lapis : AreUnique (λ l. l.alias) b.lapis
  pub bindings : AreUnique binding_key b.bindings
  pub orders : AreUnique order_key b.lapi_rapi_order

-- What is relied on of `reflect.DeepEqual`: a row equals itself.
pub record IsReflexive (lib : Library) : Type 0 where
  pub rapi : (r : Rapi) → lib.equal_rapi r r ≡ true
  pub lapi : (l : Lapi) → lib.equal_lapi l l ≡ true
  pub binding : (b : CredentialBinding) → lib.equal_binding b b ≡ true
  pub order : (o : LapiRapiOrder) → lib.equal_order o o ≡ true

-- Under each natural key two bundles have no row, or rows that the merge takes for equal.
pub record IsAlike (lib : Library) (a b : Bundle) : Type 0 where
  pub platforms :
      (k : String)
      → Alike platform_equal
          (index_row (λ p. p.base_url) a.platforms k)
          (index_row (λ p. p.base_url) b.platforms k)
  pub credentials :
      (k : String)
      → Alike credential_equal
          (index_row (λ c. c.token_hash) a.credentials k)
          (index_row (λ c. c.token_hash) b.credentials k)
  pub rapis :
      (k : EndpointRef)
      → Alike lib.equal_rapi (index_row rapi_key a.rapis k) (index_row rapi_key b.rapis k)
  pub lapis :
      (k : String)
      → Alike lib.equal_lapi
          (index_row (λ l. l.alias) a.lapis k)
          (index_row (λ l. l.alias) b.lapis k)
  pub bindings :
      (k : BindingRef)
      → Alike lib.equal_binding
          (index_row binding_key a.bindings k)
          (index_row binding_key b.bindings k)
  pub orders :
      (k : OrderKey)
      → Alike lib.equal_order
          (index_row order_key a.lapi_rapi_order k)
          (index_row order_key b.lapi_rapi_order k)

text_refl : (s : String) → (str_eq s s ≡ true)
text_refl s = (eq_iff s s).1 refl

int_refl : (n : ℤ) → eq_ℤ n n ≡ true
int_refl n = (eq_ℤ_iff n n).1 refl

platform_equal_refl : (a : Platform) → platform_equal a a ≡ true
unfolding platform_equal
platform_equal_refl a = ground (
  arith,
  text_refl a.base_url,
  text_refl a.name,
  text_refl a.token,
  int_refl (canon_time a.last_token_fetch),
  text_refl a.notes,
  text_refl a.supported_formats,
  text_refl a.format_endpoints,
  text_refl a.custom_headers,
  text_refl a.login_account,
  int_refl a.sort_order,
)

credential_equal_refl : (a : Credential) → credential_equal a a ≡ true
unfolding credential_equal
credential_equal_refl a = ground (
  arith,
  text_refl a.token_hash,
  text_refl a.platform_base_url,
  int_refl a.sort_order,
  text_refl a.token,
  text_refl a.label,
  int_refl (canon_time a.expires_at),
)

-- For two bundles without two rows of one kind and key, where a row equals itself: `adds_to_center` is
-- false exactly if the union is, under every key of every table, what the center already has, up to the
-- comparison of rows. So a push back that it holds back would have told the center nothing.
pub merge_bundles-IsAlike :
    (lib : Library) (now : String) (local center : Bundle)
    → IsReflexive lib
    → HasUniqueKeys local
    → HasUniqueKeys center
    → (merge_bundles lib now local center).1.adds_to_center ≡ false
      ↔ IsAlike lib (merge_bundles lib now local center).0 center
unfolding merge_bundles
merge_bundles-IsAlike lib now local center e u v =
    let s0 = empty_summary now in
    let e1 =
      union_rows-Alike {A = Platform} {K = String} (λ (p : Platform). p.base_url) platform_equal
        "platform" (λ (p : Platform). p.base_url) local.platforms center.platforms s0 u.platforms
        v.platforms platform_equal_refl in
    let s1 =
      (union_rows {A = Platform} {K = String} (λ (p : Platform). p.base_url) platform_equal
        "platform" (λ (p : Platform). p.base_url) local.platforms center.platforms s0).1 in
    let e2 =
      union_rows-Alike {A = Credential} {K = String} (λ (c : Credential). c.token_hash)
        credential_equal "credential" (λ (c : Credential). short_hash lib c.token_hash)
        local.credentials center.credentials s1 u.credentials v.credentials credential_equal_refl in
    let s2 =
      (union_rows {A = Credential} {K = String} (λ (c : Credential). c.token_hash) credential_equal
        "credential" (λ (c : Credential). short_hash lib c.token_hash) local.credentials
        center.credentials s1).1 in
    let e3 =
      union_rows-Alike {A = Rapi} {K = EndpointRef} rapi_key lib.equal_rapi "rapi"
        (λ r. r.platform_base_url <> "#" <> r.model) local.rapis center.rapis s2 u.rapis v.rapis
        e.rapi in
    let s3 =
      (union_rows {A = Rapi} {K = EndpointRef} rapi_key lib.equal_rapi "rapi"
        (λ r. r.platform_base_url <> "#" <> r.model) local.rapis center.rapis s2).1 in
    let e4 =
      union_rows-Alike {A = Lapi} {K = String} (λ (l : Lapi). l.alias) lib.equal_lapi "lapi"
        (λ (l : Lapi). l.alias) local.lapis center.lapis s3 u.lapis v.lapis e.lapi in
    let s4 =
      (union_rows {A = Lapi} {K = String} (λ (l : Lapi). l.alias) lib.equal_lapi "lapi"
        (λ (l : Lapi). l.alias) local.lapis center.lapis s3).1 in
    let e5 =
      union_rows-Alike {A = CredentialBinding} {K = BindingRef} binding_key lib.equal_binding
        "endpoint_credential"
        (λ b. b.platform_base_url <> "#" <> b.model <> "#" <> short_hash lib b.token_hash)
        local.bindings center.bindings s4 u.bindings v.bindings e.binding in
    let s5 =
      (union_rows {A = CredentialBinding} {K = BindingRef} binding_key lib.equal_binding
        "endpoint_credential"
        (λ b. b.platform_base_url <> "#" <> b.model <> "#" <> short_hash lib b.token_hash)
        local.bindings center.bindings s4).1 in
    let e6 =
      union_rows-Alike {A = LapiRapiOrder} {K = OrderKey} order_key lib.equal_order
        "lapi_rapi_order"
        (λ o. o.lapi_alias <> "#" <> o.rapi_platform_base_url <> "#" <> o.rapi_model)
        local.lapi_rapi_order center.lapi_rapi_order s5 u.orders v.orders e.order in
    let s6 =
      (union_rows {A = LapiRapiOrder} {K = OrderKey} order_key lib.equal_order "lapi_rapi_order"
        (λ o. o.lapi_alias <> "#" <> o.rapi_platform_base_url <> "#" <> o.rapi_model)
        local.lapi_rapi_order center.lapi_rapi_order s5).1 in
    (
      (λ h.
          let r6 = e6.0 h in
          let r5 = e5.0 r6.0 in
          let r4 = e4.0 r5.0 in
          let r3 = e3.0 r4.0 in
          let r2 = e2.0 r3.0 in
          let r1 = e1.0 r2.0 in
          record {
            platforms = r1.1;
            credentials = r2.1;
            rapis = r3.1;
            lapis = r4.1;
            bindings = r5.1;
            orders = r6.1;
          }),
      (λ a.
          let a3 = e3.1 (e2.1 (e1.1 (refl, a.platforms), a.credentials), a.rapis) in
          e6.1 (e5.1 (e4.1 (a3, a.lapis), a.bindings), a.orders)),
    )
