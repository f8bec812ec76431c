-- ===== src/Scheduler/Recovery.antt =====
-- internal/scheduler/scheduler.go: the recovery loop, which advances the entities and sleeps until the
-- next timer. The loop body is one function of the state; the sleep itself is not modelled.
use api_gateway.Prelude.{
  ◌≡◌, ◌≢◌, ◌<◌, ◌≤◌, ◌⊎◌, inl, refl, List, [], ◌∷◌, arith, if◌then◌else◌, ℤ, All,
}
use api_gateway.Clock.{Time, after, min_non_zero}
use api_gateway.Entity.{healthy, invalidated}
use api_gateway.Key.{Key, advance_key}
use api_gateway.Rapi.{Rapi, advance_rapi}
use api_gateway.Rapi.Invariant.{Inv}
use api_gateway.Rapi.Recovery.{advance_rapi_settled}
use api_gateway.Scheduler.Manager.{Manager}

unfoldable pub map_values {ℓ} : {K V : Type ℓ} → (V → V) → List (K × V) → List (K × V)
map_values f [] = []
map_values f ((k, v) ∷ m) = (k, f v) ∷ map_values f m

-- What the loop does when its timer fires.
unfoldable pub advance_all : Time → Time → Manager → Manager
unfolding map_values
advance_all clock now m = record m {
  rapis = map_values (advance_rapi clock now) m.rapis;
  keys = map_values (advance_key clock now) m.keys;
}

-- The earlier of the time found so far and a timer that is still to run.
abbrev pub earlier : Time → Time → Time → Time
earlier now next wake = if after wake now then min_non_zero next wake else next

unfoldable pub next_rapi : Time → Time → List (ℤ × Rapi) → Time
next_rapi now next [] = next
next_rapi now next ((id, r) ∷ rest) = next_rapi now (earlier now next r.0.wake_at) rest

unfoldable pub next_key : Time → Time → List (ℤ × Key) → Time
next_key now next [] = next
next_key now next ((id, k) ∷ rest) = next_key now (earlier now next k.0.wake_at) rest

unfoldable pub next_recovery : Time → Manager → Time
unfolding next_rapi next_key
next_recovery now m = next_key now (next_rapi now 0 m.rapis) m.keys

-- No cooldown is over.
abbrev pub IsSettled : Time → Rapi → Type 0
IsSettled now r = (r.0.state ≡ healthy) ⊎ (r.0.state ≡ invalidated) ⊎ (now < r.0.wake_at)

settled :
    (clock now : Time) (rs : List (ℤ × Rapi))
    → All (λ e. Inv e.1) rs
    → All (λ e. IsSettled now e.1) (map_values (advance_rapi clock now) rs)
unfolding map_values
settled clock now [] v = tt
settled clock now ((id, r) ∷ rs) v =
    (advance_rapi_settled clock now r v.0, settled clock now rs v.1)

-- If every endpoint satisfies its invariant: after a round of the loop every endpoint is healthy, invalidated, or in a cooldown that is not over:
-- the round misses none whose timer has run out.
pub advance_all-IsSettled :
    (clock now : Time) (m : Manager)
    → All (λ e. Inv e.1) m.rapis
    → All (λ e. IsSettled now e.1) (advance_all clock now m).rapis
unfolding advance_all
advance_all-IsSettled clock now m v = settled clock now m.rapis v

-- A time of waking that is after now, or zero for none, and that no pending timer precedes.
abbrev pub IsNext : Time → Time → Time → Type 0
IsNext now next wake = (wake ≤ now) ⊎ ((next ≢ 0) × (next ≤ wake))

next_rapi_le :
    (now next : Time) (rs : List (ℤ × Rapi))
    → (next ≡ 0) ⊎ (now < next)
    → ((next_rapi now next rs ≡ 0) ⊎ (now < next_rapi now next rs))
      × (next ≢ 0 → (next_rapi now next rs ≢ 0) × (next_rapi now next rs ≤ next))
      × All (λ e. IsNext now (next_rapi now next rs) e.1.0.wake_at) rs
unfolding next_rapi
next_rapi_le now next [] h = (h, (λ n. (n, omega arith)), tt)
next_rapi_le now next ((id, r) ∷ rs) h =
    let ih = next_rapi_le now (earlier now next r.0.wake_at) rs (ground arith) in
    (ih.0, (λ n. ground (arith, ih.1)), (ground (arith, ih.1), ih.2))

next_key_le :
    (now next : Time) (ks : List (ℤ × Key))
    → (next ≡ 0) ⊎ (now < next)
    → ((next_key now next ks ≡ 0) ⊎ (now < next_key now next ks))
      × (next ≢ 0 → (next_key now next ks ≢ 0) × (next_key now next ks ≤ next))
      × All (λ e. IsNext now (next_key now next ks) e.1.0.wake_at) ks
unfolding next_key
next_key_le now next [] h = (h, (λ n. (n, omega arith)), tt)
next_key_le now next ((id, k) ∷ ks) h =
    let ih = next_key_le now (earlier now next k.0.wake_at) ks (ground arith) in
    (ih.0, (λ n. ground (arith, ih.1)), (ground (arith, ih.1), ih.2))

IsNext-All :
    (now a b : Time) (rs : List (ℤ × Rapi))
    → (a ≢ 0 → (b ≢ 0) × (b ≤ a))
    → All (λ e. IsNext now a e.1.0.wake_at) rs
    → All (λ e. IsNext now b e.1.0.wake_at) rs
IsNext-All now a b [] h n = tt
IsNext-All now a b (r ∷ rs) h n = (ground (arith, n.0, h), IsNext-All now a b rs h n.1)

-- The time for which the loop sleeps is after now, or zero if no timer is pending, and it is no later than
-- any pending timer of an endpoint or a key.
pub next_recovery_lem :
    (now : Time) (m : Manager)
    → ((next_recovery now m ≡ 0) ⊎ (now < next_recovery now m))
      × All (λ e. IsNext now (next_recovery now m) e.1.0.wake_at) m.rapis
      × All (λ e. IsNext now (next_recovery now m) e.1.0.wake_at) m.keys
unfolding next_recovery
next_recovery_lem now m =
    let r = next_rapi_le now 0 m.rapis (inl refl) in
    let k = next_key_le now (next_rapi now 0 m.rapis) m.keys r.0 in
    (k.0, IsNext-All now (next_rapi now 0 m.rapis) _ m.rapis k.1 r.2, k.2)
