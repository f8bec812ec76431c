-- ===== src/Fsm.antt =====
-- internal/fsm/fsm.go: the table-driven state machine engine.
-- A `Machine` holds what the engine changes; `Rules` holds the transition table and its index, which
-- do not change after registration. The closures that Go stores as guard and effect read and write
-- the entity that owns the machine, so they are functions of the machine together with its owner.
-- Each call is atomic: the entities hold their own lock around it.
pub mod Index
use api_gateway.Prelude.{
  ℕ, ◌≡◌, refl, Bool, true, false, ◌&&◌, ◌||◌, Option, none, some, List, [], ◌∷◌, ◌++◌, arith,
  if◌then◌else◌, Eq, same, keep_if,
}
use api_gateway.Clock.{Time, is_zero, before}

pub record Machine {ℓ} (S : Type ℓ) : Type ℓ where
  pub state : S
  pub entered_at : Time
  pub wake_at : Time

-- The payload `any` of Go is an optional value of a payload type.
pub record Context {ℓ} (Ev P : Type ℓ) : Type ℓ where
  pub event : Ev
  pub payload : Option P

pub record Transition {ℓ} (S Ev P O : Type ℓ) : Type ℓ where
  pub source : S
  pub event : Ev
  pub target : S
  pub guard : Option (Machine S × O → Context Ev P → Bool)
  pub effect : Option (Context Ev P → Time → Machine S × O → Machine S × O)

pub record Rules {ℓ} (S Ev P O : Type ℓ) : Type ℓ where
  pub table : List (Transition S Ev P O)
  pub index : List ((S × Ev) × List (Transition S Ev P O))

module _ {ℓ} {S : Type ℓ} where
  unfoldable pub new : S → Time → Machine S
  new initial clock = record { state = initial; entered_at = clock; wake_at = 0 }

  unfoldable pub set_timer : Time → Machine S → Machine S
  set_timer at m = record m { wake_at = at }

module _ {ℓ} {S Ev : Type ℓ} ⦃s : Eq S⦄ ⦃e : Eq Ev⦄ where
  abbrev pub same_key : S × Ev → S × Ev → Bool
  same_key (a, x) (b, y) = same a b && same x y

module _ {ℓ} {S Ev P O : Type ℓ} ⦃s : Eq S⦄ ⦃e : Eq Ev⦄ where
  -- `m.index[key] = append(m.index[key], tr)`.
  unfoldable pub index_append :
      S × Ev
      → Transition S Ev P O
      → List ((S × Ev) × List (Transition S Ev P O))
      → List ((S × Ev) × List (Transition S Ev P O))
  index_append key tr [] = (key, tr ∷ []) ∷ []
  index_append key tr ((k, trs) ∷ rest) =
      if same_key k key then (k, trs ++ tr ∷ []) ∷ rest else (k, trs) ∷ index_append key tr rest

  -- `m.index[key]`, empty on a missing key.
  unfoldable pub index_get :
      S × Ev → List ((S × Ev) × List (Transition S Ev P O)) → List (Transition S Ev P O)
  index_get key [] = []
  index_get key ((k, trs) ∷ rest) = if same_key k key then trs else index_get key rest

  unfoldable pub register : Rules S Ev P O → Transition S Ev P O → Rules S Ev P O
  unfolding index_append
  register r tr = record {
    table = r.table ++ tr ∷ [];
    index = index_append (tr.source, tr.event) tr r.index;
  }

  unfoldable pub register_all : Rules S Ev P O → List (Transition S Ev P O) → Rules S Ev P O
  unfolding register
  register_all r [] = r
  register_all r (tr ∷ trs) = register_all (register r tr) trs

  abbrev pub passes : Transition S Ev P O → Machine S × O → Context Ev P → Bool
  passes tr w ctx = elim tr.guard [ none ↦ true | some g ↦ g w ctx ]

  unfoldable pub first_passing :
      List (Transition S Ev P O) → Machine S × O → Context Ev P → Option (Transition S Ev P O)
  first_passing [] w ctx = none
  first_passing (tr ∷ trs) w ctx = if passes tr w ctx then some tr else first_passing trs w ctx

  unfoldable pub match_locked :
      Rules S Ev P O → Machine S × O → Context Ev P → Option (Transition S Ev P O)
  unfolding index_get first_passing
  match_locked r w ctx = first_passing (index_get (w.0.state, ctx.event) r.index) w ctx

  -- The state change and then the effect of a matched transition.
  unfoldable pub take_transition :
      Transition S Ev P O → Context Ev P → Time → Machine S × O → Machine S × O
  take_transition tr ctx clock (m, o) =
      let w : Machine S × O = (record m { state = tr.target; entered_at = clock }, o) in
      elim tr.effect [ none ↦ w | some run ↦ run ctx clock w ]

  -- The machine and its owner after the call, the resulting state, and whether it moved.
  unfoldable pub fire :
      Rules S Ev P O → Time → Ev → Option P → Machine S × O → (Machine S × O) × S × Bool
  unfolding match_locked take_transition
  fire r clock ev p w =
      let ctx : Context Ev P = record { event = ev; payload = p } in
      elim (match_locked r w ctx) [
        | none ↦ (w, w.0.state, false)
        | some tr ↦ (take_transition tr ctx clock w, tr.target, true)
      ]

  -- `timer` is the reserved event fsm.TimerExpired.
  unfoldable pub advance :
      Ev → Rules S Ev P O → Time → Time → Machine S × O → (Machine S × O) × S × Bool
  unfolding fire set_timer
  advance timer r clock now (m, o) =
      if is_zero m.wake_at || before now m.wake_at
      then ((m, o), m.state, false)
      else fire r clock timer none (set_timer 0 m, o)
