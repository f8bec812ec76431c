-- ===== src/Service/Sync/Marks.antt =====
-- internal/service/sync.go and sync_dirty.go: the mark of the edits that the panel makes while a merge runs.
use text.Mathlib.Text.{◌==◌ as str_eq}
use text.Mathlib.TextEquality.{eq_iff}
use api_gateway.Prelude.{
  ℕ, ◌≡◌, ◌≤◌, ◌<◌, sym, ◌∙◌, ◌||◌, Bool, true, false, String, arith, ℤ, ltb, Bool-cases,
  Option-cases, inl, inr,
}
use api_gateway.Service.SyncMerge as Merge
use api_gateway.Service.SyncMerge.{merge_bundles}
use api_gateway.Service.SyncDirty.{
  Edge, clear_edge_dirty, clear_edge_dirty_if_unchanged, set_merging, mark_edge_dirty,
  raise_generation, set_mark, default_on_edge_dirty,
}
use api_gateway.Service.Sync.{
  DefinitionStore, Outside, Envelope, Pulled, no_change, broken, envelope, Pause, before_align,
  before_apply, before_export, during_push, during_clear, pull_apply_bundle, after_push, push_back,
  apply_merge,
}

-- The mark is set, or a call that raised the generation is about to set it.
abbrev pub is_marked : Edge → Bool
is_marked e = str_eq e.sync_dirty "1" || ltb 0 e.marking

-- From one state to a later one with edits only: a mark stays, and with a new generation there is one.
pub record Edits (e f : Edge) : Type 0 where
  pub has_db : f.has_db ≡ e.has_db
  pub grows : e.dirty_gen ≤ f.dirty_gen
  pub stays : e.has_db ≡ true → is_marked e ≡ true → is_marked f ≡ true
  pub marked : e.has_db ≡ true → e.dirty_gen < f.dirty_gen → is_marked f ≡ true

set_one : {s : String} → s ≡ "1" → str_eq s "1" ≡ true
set_one {s = s} h = (eq_iff s "1").1 h

pub raise_generation-Edits : (e : Edge) → Edits e (raise_generation e).0
unfolding raise_generation
raise_generation-Edits e = record {
  has_db = ground arith;
  grows = ground arith;
  stays = λ d h. ground (arith, h);
  marked = λ d h. ground (arith, d, h);
}

set_mark-one :
    (now reason : String) (e : Edge) → e.has_db ≡ true → (set_mark now reason e).sync_dirty ≡ "1"
unfolding set_mark default_on_edge_dirty
set_mark-one now reason e d = ground (arith, d)

pub set_mark-Edits : (now reason : String) (e : Edge) → Edits e (set_mark now reason e)
unfolding set_mark default_on_edge_dirty
set_mark-Edits now reason e = record {
  has_db = ground arith;
  grows = ground arith;
  stays = λ d h. ground (arith, set_one (set_mark-one now reason e d));
  marked = λ d h. ground (arith, set_one (set_mark-one now reason e d));
}

Edits-trans : {e f g : Edge} → Edits e f → Edits f g → Edits e g
Edits-trans {e} {f} {g} s t = record {
  has_db = t.has_db ∙ s.has_db;
  grows = omega (arith, s.grows, t.grows);
  stays = λ d h. t.stays (s.has_db ∙ d) (s.stays d h);
  marked = λ d h. elim (Bool-cases (ltb e.dirty_gen f.dirty_gen)) [
    | inl less ↦ t.stays (s.has_db ∙ d) (s.marked d (ground (arith, less)))
    | inr more ↦ t.marked (s.has_db ∙ d) (ground (arith, h, more))
  ];
}

pub mark_edge_dirty-Edits :
    (now reason : String) (e : Edge) → Edits e (mark_edge_dirty now reason e)
unfolding mark_edge_dirty
mark_edge_dirty-Edits now reason e = elim (Bool-cases (raise_generation e).1) [
  | inl m ↦
      rw (m, mark_edge_dirty)
        (Edits-trans (raise_generation-Edits e) (set_mark-Edits now reason (raise_generation e).0))
  | inr m ↦ rw (m, mark_edge_dirty) (raise_generation-Edits e)
]

-- Since a generation was read, every edit has left its mark or is about to.
abbrev pub IsMarked : ℕ → Edge → Type 0
IsMarked gen e = e.has_db ≡ true → gen < e.dirty_gen → is_marked e ≡ true

IsMarked-Edits : {gen : ℕ} {e f : Edge} → Edits e f → IsMarked gen e → IsMarked gen f
IsMarked-Edits {gen = gen} {e = e} {f = f} s m d h = elim (Bool-cases (ltb gen e.dirty_gen)) [
  | inl less ↦ s.stays (sym s.has_db ∙ d) (m (sym s.has_db ∙ d) (ground (arith, less)))
  | inr more ↦ s.marked (sym s.has_db ∙ d) (ground (arith, h, more))
]

set_merging-IsMarked :
    (gen : ℕ) (on : Bool) (e : Edge) → IsMarked gen e → IsMarked gen (set_merging on e)
unfolding set_merging
set_merging-IsMarked gen on e m = m

clear-IsMarked :
    {D : Type 0} (gap : D × Edge → D × Edge) (gen : ℕ) (s : D × Edge)
    → ((t : D × Edge) → (gap t).1.dirty_gen ≡ t.1.dirty_gen)
    → IsMarked gen s.1
    → IsMarked gen (clear_edge_dirty_if_unchanged gap gen s).0.1
unfolding clear_edge_dirty_if_unchanged clear_edge_dirty
clear-IsMarked gap gen s still m d h = ground (arith, m, d, h, still s)

module _ {D : Type 0} (defs : DefinitionStore D) (lib : Merge.Library) (now : String)
    (out : Outside D) (edits : (p : Pause) (s : D × Edge) → Edits s.1 (out.panel p s).1)
    (still : (s : D × Edge) → (out.panel during_clear s).1.dirty_gen ≡ s.1.dirty_gen)
    (gen : ℕ) where
  pull_apply_bundle-IsMarked :
      (got : Pulled) (at : Pause) (s : D × Edge)
      → IsMarked gen s.1
      → IsMarked gen (pull_apply_bundle defs lib now out got at s).0.1
  unfolding pull_apply_bundle
  pull_apply_bundle-IsMarked no_change at s m = m
  pull_apply_bundle-IsMarked broken at s m = m
  pull_apply_bundle-IsMarked (envelope env) at s m =
      let m' : IsMarked gen (out.panel at s).1 = IsMarked-Edits (edits at s) m in
      elim (Option-cases (defs.apply_bundle env (out.panel at s).0)) [
        | inl e ↦ rw (e, pull_apply_bundle) m'
        | inr (d, e) ↦ rw (e, pull_apply_bundle) m'
      ]

  after_push-IsMarked :
      (prev_good : ℤ) (pushed : Bool) (d : D) (e : Edge)
      → IsMarked gen e
      → IsMarked gen (after_push defs lib now out gen prev_good pushed (d, e)).0.1
  unfolding after_push
  after_push-IsMarked prev_good false d e m =
      elim (Option-cases (defs.rewind_last_good_version prev_good d)) [
        | inl h ↦ rw (h, after_push) m
        | inr (d', h) ↦ rw (h, after_push) m
      ]
  after_push-IsMarked prev_good true d e m =
      let r = clear_edge_dirty_if_unchanged (out.panel during_clear) gen (d, e) in
      let c : IsMarked gen r.0.1 = clear-IsMarked (out.panel during_clear) gen (d, e) still m in
      elim (Bool-cases r.1) [
        | inr b ↦ rw (b, after_push) c
        | inl b ↦ elim (Option-cases (defs.last_good_version r.0.0)) [
          | inl h ↦ rw (b, h, after_push) c
          | inr (v, h) ↦
              rw (b, h, after_push) (pull_apply_bundle-IsMarked out.pulled_again before_align r.0 c)
        ]
      ]

  push_back-IsMarked :
      (prev_good : ℤ) (adds : Bool) (d : D) (e : Edge)
      → IsMarked gen e
      → IsMarked gen (push_back defs lib now out gen prev_good adds (d, e)).0.1
  unfolding push_back
  push_back-IsMarked prev_good false d e m =
      clear-IsMarked (out.panel during_clear) gen (d, e) still m
  push_back-IsMarked prev_good true d e m = elim (Bool-cases out.writable) [
    | inr w ↦ rw (w, push_back) m
    | inl w ↦
        let s : D × Edge = (d, set_merging true e) in
        let n : IsMarked gen (out.panel during_push s).1 =
          IsMarked-Edits (edits during_push s) (set_merging-IsMarked gen true e m) in
        rw (w, push_back)
          (after_push-IsMarked prev_good (out.pushes (out.panel during_push s).0)
            (out.panel during_push s).0 (set_merging false (out.panel during_push s).1)
            (set_merging-IsMarked gen false (out.panel during_push s).1 n))
  ]

-- The state after a merge is marked, if the generation was raised since it began.
merge-IsMarked :
    {D : Type 0} (defs : DefinitionStore D) (lib : Merge.Library) (now : String) (out : Outside D)
    (env : Envelope) (s : D × Edge)
    → ((p : Pause) (t : D × Edge) → Edits t.1 (out.panel p t).1)
    → ((t : D × Edge) → (out.panel during_clear t).1.dirty_gen ≡ t.1.dirty_gen)
    → IsMarked s.1.dirty_gen (apply_merge defs lib now out env s).0.1
unfolding apply_merge
merge-IsMarked defs lib now out env s edits still =
    let gen = s.1.dirty_gen in
    let start : IsMarked gen s.1 = λ d h. absurd (omega (arith, h)) in
    let s1 = out.panel before_export s in
    let m1 : IsMarked gen s1.1 = IsMarked-Edits (edits before_export s) start in
    let s2 = out.panel before_apply s1 in
    let m2 : IsMarked gen s2.1 = IsMarked-Edits (edits before_apply s1) m1 in
    elim (Option-cases (defs.last_good_version s1.0)) [
      | inl g ↦ rw (g, apply_merge) m1
      | inr (good, g) ↦ elim (Option-cases (defs.export_bundle s1.0)) [
        | inl x ↦ rw (g, x, apply_merge) m1
        | inr (local, x) ↦
            let union = merge_bundles lib now local env.bundle in
            elim (Option-cases
              (defs.apply_bundle (record { version = env.version; bundle = union.0 }) s2.0)) [
                | inl a ↦ rw (g, x, a, apply_merge) m2
                | inr (d, a) ↦
                    rw (g, x, a, apply_merge)
                      (push_back-IsMarked defs lib now out edits still gen good
                        union.1.adds_to_center d s2.1 m2)
              ]
      ]
    ]

-- A merge during which the panel makes edits at any of the pauses, each of which raises the generation and
-- sets its mark, at once or later, where none raises the generation between the check of the generation and
-- the clearing of the mark: if the settings' database is there and the generation was raised since the
-- merge began, then when the merge ends the mark is set or is about to be set by the edit, whatever the
-- database and the network answer.
pub apply_merge-IsMarked :
    {D : Type 0} (defs : DefinitionStore D) (lib : Merge.Library) (now : String) (out : Outside D)
    (env : Envelope) (s : D × Edge)
    → ((p : Pause) (t : D × Edge) → Edits t.1 (out.panel p t).1)
    → ((t : D × Edge) → (out.panel during_clear t).1.dirty_gen ≡ t.1.dirty_gen)
    → (apply_merge defs lib now out env s).0.1.has_db ≡ true
    → s.1.dirty_gen < (apply_merge defs lib now out env s).0.1.dirty_gen
    → is_marked (apply_merge defs lib now out env s).0.1 ≡ true
apply_merge-IsMarked defs lib now out env s edits still =
    merge-IsMarked defs lib now out env s edits still
