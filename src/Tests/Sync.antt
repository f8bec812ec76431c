-- ===== src/Tests/Sync.antt =====
-- Concrete runs of the theorems on the synchronisation: the database keeps a bundle and a version.
use api_gateway.Prelude.{◌≡◌, refl, true, false, none, some, List, [], ◌∷◌, String, arith, ℤ, pos}
use api_gateway.Bundle.{Bundle, Platform}
use api_gateway.Service.SyncMerge as Merge
use api_gateway.Service.SyncMerge.{merge_bundles}
use api_gateway.Service.SyncMerge.Lookup.{merge_bundles-IsUnion, IsUnion, merge_bundles_again}
use api_gateway.Service.SyncDirty.{Edge, mark_edge_dirty}
use api_gateway.Service.Sync.{
  DefinitionStore, Envelope, Outside, Pause, before_pull, before_apply, before_merge, before_export,
  during_push, during_clear, before_align, no_change, envelope, apply_merge,
}
use api_gateway.Service.Sync.Marks.{Edits, is_marked, mark_edge_dirty-Edits, apply_merge-IsMarked}

abbrev library : Merge.Library
library = record {
  equal_rapi = λ a b. true;
  equal_lapi = λ a b. true;
  equal_binding = λ a b. true;
  equal_order = λ a b. true;
  len = λ s. 0;
  prefix = λ s n. s;
}

abbrev platform : String → String → Platform
platform base_url name = record {
  base_url = base_url;
  name = name;
  token = "";
  last_token_fetch = none;
  enabled = true;
  notes = "";
  supported_formats = "[]";
  format_endpoints = "{}";
  custom_headers = "";
  login_account = "";
  sort_order = pos 0;
}

abbrev bundle_of : List Platform → Bundle
bundle_of ps = record {
  platforms = ps;
  credentials = [];
  rapis = [];
  lapis = [];
  lapi_rapi_order = [];
  bindings = [];
}

-- The center has platforms "x" and "y"; here "x" was renamed and "z" was added.
abbrev center : Bundle
center = bundle_of (platform "x" "X" ∷ platform "y" "Y" ∷ [])

abbrev local : Bundle
local = bundle_of (platform "x" "our X" ∷ platform "z" "Z" ∷ [])

merge_bundles-IsUnion_example : IsUnion local center (merge_bundles library "now" local center).0
merge_bundles-IsUnion_example = merge_bundles-IsUnion library "now" local center

merge_bundles_again_example :
    let merged = (merge_bundles library "now" local center).0 in
    (merge_bundles library "later" merged center).0 ≡ merged
merge_bundles_again_example = merge_bundles_again library "now" "later" local center

-- The database: the bundle and the version that was good last.
abbrev database : DefinitionStore (Bundle × ℤ)
database = record {
  last_good_version = λ d. some d.1;
  export_bundle = λ d. some d.0;
  apply_bundle = λ env d. some (env.bundle, env.version);
  rewind_last_good_version = λ v d. some (d.0, v);
}

abbrev edge : Edge
edge = record {
  has_db = true;
  sync_dirty = "1";
  sync_dirty_at = "noon";
  sync_dirty_reason = "edit";
  dirty_gen = 3;
  marking = 0;
  manage_mode = false;
  center_known = true;
  merging = false;
  merging_depth = 0;
}

abbrev news : Envelope
news = record { version = pos 9; bundle = center }

-- The panel empties the definitions at every pause but the clearing of the mark, and the push fails.
abbrev outside : Outside (Bundle × ℤ)
outside = record {
  remote = some (pos 9);
  manual = false;
  pulled = envelope news;
  pulled_again = no_change;
  writable = true;
  pushes = λ d. false;
  panel = λ p s. elim p [
    | during_clear ↦ s
    | _ ↦ ((bundle_of [], s.0.1), mark_edge_dirty "now" "delete" s.1)
  ];
}

same-Edits : (e : Edge) → Edits e e
same-Edits e = record {
  has_db = refl;
  grows = omega arith;
  stays = λ d h. h;
  marked = λ d h. absurd (omega (arith, h));
}

outside-Edits : (p : Pause) (t : (Bundle × ℤ) × Edge) → Edits t.1 (outside.panel p t).1
outside-Edits before_pull t = mark_edge_dirty-Edits "now" "delete" t.1
outside-Edits before_apply t = mark_edge_dirty-Edits "now" "delete" t.1
outside-Edits before_merge t = mark_edge_dirty-Edits "now" "delete" t.1
outside-Edits before_export t = mark_edge_dirty-Edits "now" "delete" t.1
outside-Edits during_push t = mark_edge_dirty-Edits "now" "delete" t.1
outside-Edits during_clear t = same-Edits t.1
outside-Edits before_align t = mark_edge_dirty-Edits "now" "delete" t.1

apply_merge-IsMarked_example :
    is_marked (apply_merge database library "now" outside news ((local, pos 8), edge)).0.1 ≡ true
unfolding merge_bundles apply_merge mark_edge_dirty
apply_merge-IsMarked_example =
    apply_merge-IsMarked database library "now" outside news ((local, pos 8), edge) outside-Edits
      (λ t. refl) refl (omega arith)
