-- ===== src/Service/SyncDirty.antt =====
-- internal/service/sync_dirty.go: the mark of local edits that the center has not seen. Settings that cannot
-- be written are taken as written, since the code ignores those errors.
use text.Mathlib.Text.{◌==◌ as str_eq}
use api_gateway.Prelude.{
  ℕ, zero, suc, Bool, true, false, not, ◌&&◌, String, if◌then◌else◌, ℤ, pos, eq_ℤ, ltb, ◌==◌,
}

-- The settings, the generation of edits, the count of running merges with its flag, and the mode.
-- `center_known` is what centerKnown answers, and `marking` counts the calls of markEdgeDirty that have raised
-- the generation and not yet set the mark.
pub record Edge : Type 0 where
  pub has_db : Bool
  pub sync_dirty : String
  pub sync_dirty_at : String
  pub sync_dirty_reason : String
  pub dirty_gen : ℕ
  pub marking : ℕ
  pub manage_mode : Bool
  pub center_known : Bool
  pub merging : Bool
  pub merging_depth : ℕ

-- `now` is the text of the time.
unfoldable pub default_on_edge_dirty : String → String → Edge → Edge
default_on_edge_dirty now reason e = if not e.has_db then e else record e {
  sync_dirty = "1";
  sync_dirty_reason = reason;
  sync_dirty_at = if not (str_eq e.sync_dirty "1") then now else e.sync_dirty_at;
}

unfoldable pub clear_edge_dirty : Edge → Edge
clear_edge_dirty e =
    if not e.has_db
    then e
    else record e { sync_dirty = ""; sync_dirty_at = ""; sync_dirty_reason = "" }

-- The check and the clearing are two steps: `gap` is what others do between them, to the edge and to the
-- definitions. The three settings are cleared as one step.
unfoldable pub clear_edge_dirty_if_unchanged :
    {D : Type 0} → (D × Edge → D × Edge) → ℕ → D × Edge → (D × Edge) × Bool
unfolding clear_edge_dirty
clear_edge_dirty_if_unchanged gap gen (d, e) =
    if not (e.dirty_gen == gen)
    then ((d, e), false)
    else let (d', e') = gap (d, e) in ((d', clear_edge_dirty e'), true)

unfoldable pub edge_dirty_state : Edge → Bool × String × String
edge_dirty_state e =
    if not e.has_db
    then (false, "", "")
    else if not (str_eq e.sync_dirty "1")
    then (false, "", "")
    else (true, e.sync_dirty_at, e.sync_dirty_reason)

abbrev pub should_mark_dirty : Bool → Bool → Bool
should_mark_dirty manage known = not manage && known

abbrev pred : ℕ → ℕ
pred zero = zero
pred (suc n) = n

-- The first step of markEdgeDirty, which raises the generation, and whether there is a second.
unfoldable pub raise_generation : Edge → Edge × Bool
raise_generation e =
    if not (should_mark_dirty e.manage_mode e.center_known)
    then (e, false)
    else (record e { dirty_gen = suc e.dirty_gen; marking = suc e.marking }, true)

-- The second step, which sets the mark.
unfoldable pub set_mark : String → String → Edge → Edge
unfolding default_on_edge_dirty
set_mark now reason e = default_on_edge_dirty now reason (record e { marking = pred e.marking })

-- Both steps, with nothing between them.
unfoldable pub mark_edge_dirty : String → String → Edge → Edge
unfolding raise_generation set_mark
mark_edge_dirty now reason e =
    let (e', marks) = raise_generation e in if not marks then e' else set_mark now reason e'

abbrev pub versions_in_sync : ℤ → ℤ → Bool
versions_in_sync center_ver local_ver = not (eq_ℤ center_ver (pos 0)) && eq_ℤ center_ver local_ver

unfoldable pub edge_in_sync : ℤ → ℤ → Edge → Bool
unfolding edge_dirty_state
edge_in_sync center_ver local_ver e =
    if not (versions_in_sync center_ver local_ver) then false else not (edge_dirty_state e).0

unfoldable pub set_merging : Bool → Edge → Edge
set_merging on e =
    let depth = if on then suc e.merging_depth else pred e.merging_depth in
    record e { merging_depth = depth; merging = ltb 0 depth }

-- A write of the panel through the wrapped store, which marks the edge if the write succeeded.
unfoldable pub edge_write :
    {D : Type 0} → (D → D × Bool) → String → String → D → Edge → D × Edge × Bool
unfolding mark_edge_dirty
edge_write write now reason d e =
    let (d', done) = write d in
    if not done then (d', e, false) else (d', mark_edge_dirty now reason e, true)
