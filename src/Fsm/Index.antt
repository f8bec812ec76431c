-- ===== src/Fsm/Index.antt =====
-- The index of internal/fsm/fsm.go against its transition table.
use mathlib.Core.List.{append-nil, append_assoc}
use api_gateway.Prelude.{
  ◌≡◌, refl, ◌∙◌, ap, sym, Bool, true, ◌&&◌, ◌↔◌, List, [], ◌∷◌, ◌++◌, arith, Eq, keep_if,
  if◌then◌else◌, Option, none, some,
}
use api_gateway.Fsm.{
  Machine, Context, Transition, Rules, same_key, index_append, index_get, register, register_all,
  passes, first_passing, match_locked,
}

module _ {ℓ} {S Ev : Type ℓ} ⦃s : Eq S⦄ ⦃e : Eq Ev⦄ where
  pub same_key_iff : (a b : S × Ev) → (same_key a b ≡ true) ↔ (a ≡ b)
  same_key_iff a b = ground (arith, s.beq_iff a.0 b.0, e.beq_iff a.1 b.1)

module _ {ℓ} {S Ev P O : Type ℓ} ⦃s : Eq S⦄ ⦃e : Eq Ev⦄ where
  -- The transitions of a state and an event, in the order of registration.
  abbrev pub applies : S × Ev → Transition S Ev P O → Bool
  applies key tr = same_key (tr.source, tr.event) key

  get-append :
      (key key' : S × Ev) (tr : Transition S Ev P O)
      (idx : List ((S × Ev) × List (Transition S Ev P O)))
      → index_get key (index_append key' tr idx)
        ≡ index_get key idx ++ (if same_key key' key then tr ∷ [] else [])
  unfolding index_get index_append
  get-append key key' tr [] = ground arith
  get-append key key' tr ((k, trs) ∷ rest) = ground (
    arith,
    same_key_iff k key',
    same_key_iff k key,
    same_key_iff key' key,
    append-nil trs,
    append-nil (index_get key rest),
    get-append key key' tr rest,
  )

  get-register_all :
      (key : S × Ev) (r : Rules S Ev P O) (trs : List (Transition S Ev P O))
      → index_get key (register_all r trs).index
        ≡ index_get key r.index ++ keep_if (applies key) trs
  unfolding register_all
  get-register_all key r [] = sym (append-nil _)
  get-register_all key r (tr ∷ trs) =
      get-register_all key (register r tr) trs
      ∙ ap (λ t. t ++ keep_if (applies key) trs) (get-append key (tr.source, tr.event) tr r.index)
      ∙ append_assoc (index_get key r.index) _ _
      ∙ ap (◌++◌ (index_get key r.index)) (split tr trs)
    where
      split :
          (t : Transition S Ev P O) (ts : List (Transition S Ev P O))
          → (if applies key t then t ∷ [] else []) ++ keep_if (applies key) ts
            ≡ keep_if (applies key) (t ∷ ts)
      split t ts = ground arith

  abbrev pub no_rules : Rules S Ev P O
  no_rules = record { table = []; index = [] }

  -- A scan of the whole table for the first transition from the current state on the event whose
  -- guard passes.
  pub scan :
      List (Transition S Ev P O) → Machine S × O → Context Ev P → Option (Transition S Ev P O)
  scan [] w ctx = none
  scan (tr ∷ trs) w ctx =
      if applies (w.0.state, ctx.event) tr && passes tr w ctx then some tr else scan trs w ctx

  first_passing-keep_if :
      (trs : List (Transition S Ev P O)) (w : Machine S × O) (ctx : Context Ev P)
      → first_passing (keep_if (applies (w.0.state, ctx.event)) trs) w ctx ≡ scan trs w ctx
  unfolding first_passing scan
  first_passing-keep_if [] w ctx = refl
  first_passing-keep_if (tr ∷ trs) w ctx = ground (arith, first_passing-keep_if trs w ctx)

  -- After any registrations, the match by index is the scan of the transitions in the order in which
  -- they were registered.
  pub match_locked-scan :
      (trs : List (Transition S Ev P O)) (w : Machine S × O) (ctx : Context Ev P)
      → match_locked (register_all no_rules trs) w ctx ≡ scan trs w ctx
  unfolding match_locked
  match_locked-scan trs w ctx =
      ap (λ t. first_passing t w ctx) (get-register_all (w.0.state, ctx.event) no_rules trs)
      ∙ first_passing-keep_if trs w ctx
