-- ===== src/Service/Sync.antt =====
-- internal/service/sync.go: one round of the synchronisation with the center. The database's definitions are
-- an interface; what the network answers is given by `Outside`, and `panel` says what the operator edits at
-- each pause of a round. Log lines, the saved summary of a merge and the pending version are left out.
pub mod Marks
use api_gateway.Prelude.{
  ℕ, ◌≡◌, Bool, true, false, not, ◌&&◌, Option, none, some, String, if◌then◌else◌, ℤ, eq_ℤ,
}
use api_gateway.Bundle.{Bundle}
use api_gateway.Service.SyncMerge as Merge
use api_gateway.Service.SyncMerge.{merge_bundles}
use api_gateway.Service.SyncDirty.{
  Edge, edge_dirty_state, clear_edge_dirty_if_unchanged, set_merging,
}

pub data SyncAction : Type 0 where
  skip pending merge pull : SyncAction

abbrev pub sync_action : ℤ → ℤ → Bool → Bool → Bool → SyncAction
sync_action remote last_good dirty manual force =
    if eq_ℤ remote last_good
    then skip
    else if not force && manual
    then pending
    else if dirty
    then merge
    else pull

pub record Envelope : Type 0 where
  pub version : ℤ
  pub bundle : Bundle

-- What the database does with definitions; `none` is an error.
pub record DefinitionStore (D : Type 0) : Type 0 where
  pub last_good_version : D → Option ℤ
  pub export_bundle : D → Option Bundle
  pub apply_bundle : Envelope → D → Option D
  pub rewind_last_good_version : ℤ → D → Option D

pub data Pulled : Type 0 where
  no_change broken : Pulled
  envelope : Envelope → Pulled

-- Where the panel may write while a round runs.
pub data Pause : Type 0 where
  before_pull before_apply before_merge before_export during_push during_clear before_align : Pause

pub record Outside (D : Type 0) : Type 0 where
  pub remote : Option ℤ
  pub manual : Bool
  -- What PullBundle gives, the first and the second time.
  pub pulled : Pulled
  pub pulled_again : Pulled
  pub writable : Bool
  -- Whether pushBackMerged succeeds with the definitions that it reads.
  pub pushes : D → Bool
  pub panel : Pause → D × Edge → D × Edge

pub data Outcome : Type 0 where
  done error : Outcome

module _ {D : Type 0} (defs : DefinitionStore D) (lib : Merge.Library) (now : String)
    (out : Outside D) where
  -- PullBundle has answered.
  unfoldable pub pull_apply_bundle : Pulled → Pause → D × Edge → (D × Edge) × Outcome
  pull_apply_bundle no_change at s = (s, done)
  pull_apply_bundle broken at s = (s, error)
  pull_apply_bundle (envelope env) at s =
      let (d, e) = out.panel at s in
      elim (defs.apply_bundle env d) [ none ↦ ((d, e), error) | some d' ↦ ((d', e), done) ]

  -- The end of a merge, after the push: `prev_good` is the version before the merge.
  unfoldable pub after_push : ℕ → ℤ → Bool → D × Edge → (D × Edge) × Outcome
  unfolding pull_apply_bundle clear_edge_dirty_if_unchanged
  after_push gen prev_good pushed (d, e) =
      if not pushed
      then elim (defs.rewind_last_good_version prev_good d) [
        | none ↦ ((d, e), done)
        | some d' ↦ ((d', e), done)
      ]
      else let (s, cleared) = clear_edge_dirty_if_unchanged (out.panel during_clear) gen (d, e) in
        if not cleared then (s, done) else elim (defs.last_good_version s.0) [
          | none ↦ (s, error)
          | some v ↦ ((pull_apply_bundle out.pulled_again before_align s).0, done)
        ]

  -- The merge is in the database.
  unfoldable pub push_back : ℕ → ℤ → Bool → D × Edge → (D × Edge) × Outcome
  unfolding after_push clear_edge_dirty_if_unchanged set_merging
  push_back gen prev_good adds (d, e) =
      if not adds
      then ((clear_edge_dirty_if_unchanged (out.panel during_clear) gen (d, e)).0, done)
      else if not out.writable
      then ((d, e), done)
      else let (d', e') = out.panel during_push (d, set_merging true e) in
        after_push gen prev_good (out.pushes d') (d', set_merging false e')

  unfoldable pub apply_merge : Envelope → D × Edge → (D × Edge) × Outcome
  unfolding push_back merge_bundles
  apply_merge env s =
      let gen = s.1.dirty_gen in
      let (d, e) = out.panel before_export s in
      elim (defs.last_good_version d) [
        | none ↦ ((d, e), error)
        | some prev_good ↦ elim (defs.export_bundle d) [
          | none ↦ ((d, e), error)
          | some local ↦
              let (merged, sum) = merge_bundles lib now local env.bundle in
              let (d', e') = out.panel before_apply (d, e) in
              elim (defs.apply_bundle (record { version = env.version; bundle = merged }) d') [
                | none ↦ ((d', e'), error)
                | some d2 ↦ push_back gen prev_good sum.adds_to_center (d2, e')
              ]
        ]
      ]

  unfoldable pub sync_once : Bool → D × Edge → (D × Edge) × Outcome
  unfolding pull_apply_bundle apply_merge edge_dirty_state
  sync_once force (d, e) = elim out.remote [
    | none ↦ ((d, e), error)
    | some remote ↦ elim (defs.last_good_version d) [
      | none ↦ ((d, e), error)
      | some good ↦ elim (sync_action remote good (edge_dirty_state e).0 out.manual force) [
        | skip ↦ ((d, e), done)
        | pending ↦ ((d, e), done)
        | merge ↦ elim out.pulled [
          | no_change ↦ ((d, e), done)
          | broken ↦ ((d, e), error)
          | envelope env ↦ apply_merge env (out.panel before_merge (d, e))
        ]
        | pull ↦ pull_apply_bundle out.pulled before_pull (d, e)
      ]
    ]
  ]
