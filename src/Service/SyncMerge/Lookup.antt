-- ===== src/Service/SyncMerge/Lookup.antt =====
-- internal/service/sync_merge.go: MergeBundles on all six kinds of row.
use api_gateway.Prelude.{◌≡◌, Bool, not, String, List, ◌++◌, Eq, keep_if}
use api_gateway.Bundle.{
  Bundle, Platform, Credential, Lapi, EndpointRef, BindingRef, string_eq, endpoint_eq, binding_eq,
}
use api_gateway.Service.SyncMerge.{
  Library, MergeSummary, OrderKey, index_row, union_rows, merge_bundles, rapi_key, binding_key,
  order_key, order_eq,
}
use api_gateway.Service.SyncMerge.Rows.{
  is_some, either, union_rows_missing, union_rows-index_row, union_rows_again,
}

-- The rows of a union: those of the first list, and after them those of the second whose key no row of the
-- first has. So under every key it has what the first list has there, or else the second.
pub record Unites {A K : Type 0} ⦃eq : Eq K⦄ (key : A → K) (local center merged : List A)
    : Type 0 where
  pub rows : merged ≡ local ++ keep_if (λ p. not (is_some (index_row key local (key p)))) center
  pub row :
      (k : K) → index_row key merged k ≡ either (index_row key local k) (index_row key center k)

pub record IsUnion (local center merged : Bundle) : Type 0 where
  pub platforms :
      Unites (λ (p : Platform). p.base_url) local.platforms center.platforms merged.platforms
  pub credentials :
      Unites
        (λ (c : Credential). c.token_hash)
        local.credentials
        center.credentials
        merged.credentials
  pub rapis : Unites rapi_key local.rapis center.rapis merged.rapis
  pub lapis : Unites (λ (l : Lapi). l.alias) local.lapis center.lapis merged.lapis
  pub bindings : Unites binding_key local.bindings center.bindings merged.bindings
  pub orders : Unites order_key local.lapi_rapi_order center.lapi_rapi_order merged.lapi_rapi_order

module _ {A K : Type 0} ⦃eq : Eq K⦄ (key : A → K) (equal : A → A → Bool) (table : String)
    (label : A → String) where
  unites :
      (local center : List A) (s : MergeSummary)
      → Unites key local center (union_rows key equal table label local center s).0
  unites local center s = record {
    rows = union_rows_missing key equal table label local center s;
    row = union_rows-index_row key equal table label local center s;
  }

-- The union of two bundles, for any two: each of its six tables has the local rows as they are, and after them
-- exactly the center's rows under whose natural key there is no local row, in their order. So under each
-- natural key it has the local row, and the center's row if there is no local one.
pub merge_bundles-IsUnion :
    (lib : Library) (now : String) (local center : Bundle)
    → IsUnion local center (merge_bundles lib now local center).0
unfolding merge_bundles
merge_bundles-IsUnion lib now local center = record {
  platforms = unites _ _ _ _ local.platforms center.platforms _;
  credentials = unites _ _ _ _ local.credentials center.credentials _;
  rapis = unites _ _ _ _ local.rapis center.rapis _;
  lapis = unites _ _ _ _ local.lapis center.lapis _;
  bindings = unites _ _ _ _ local.bindings center.bindings _;
  orders = unites _ _ _ _ local.lapi_rapi_order center.lapi_rapi_order _;
}

bundle_eq :
    (a b : Bundle)
    → a.platforms ≡ b.platforms
    → a.credentials ≡ b.credentials
    → a.rapis ≡ b.rapis
    → a.lapis ≡ b.lapis
    → a.lapi_rapi_order ≡ b.lapi_rapi_order
    → a.bindings ≡ b.bindings
    → a ≡ b
bundle_eq a b p c r l o d i = record {
  platforms = p i;
  credentials = c i;
  rapis = r i;
  lapis = l i;
  lapi_rapi_order = o i;
  bindings = d i;
}

-- To merge the union with the same center once more, at any other time, gives the same bundle.
pub merge_bundles_again :
    (lib : Library) (now later : String) (local center : Bundle)
    → let merged = (merge_bundles lib now local center).0 in
      (merge_bundles lib later merged center).0 ≡ merged
unfolding merge_bundles
merge_bundles_again lib now later local center =
    let merged = (merge_bundles lib now local center).0 in
    bundle_eq (merge_bundles lib later merged center).0 merged
      (union_rows_again {K = String} _ _ _ _ local.platforms center.platforms _ _)
      (union_rows_again {K = String} _ _ _ _ local.credentials center.credentials _ _)
      (union_rows_again {K = EndpointRef} _ _ _ _ local.rapis center.rapis _ _)
      (union_rows_again {K = String} _ _ _ _ local.lapis center.lapis _ _)
      (union_rows_again {K = OrderKey} _ _ _ _ local.lapi_rapi_order center.lapi_rapi_order _ _)
      (union_rows_again {K = BindingRef} _ _ _ _ local.bindings center.bindings _ _)
