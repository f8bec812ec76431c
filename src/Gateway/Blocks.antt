-- ===== src/Gateway/Blocks.antt =====
-- internal/gateway/gateway.go: what the calls of the table of blocks do to the pairs that are blocked.
use api_gateway.Prelude.{
  ◌≡◌, refl, ◌∙◌, Bool, true, false, not, ◌||◌, Option, none, some, List, [], ◌∷◌, String, arith, ℤ,
  get, delete, get-delete, Option-cases, inl, inr, keep_if,
}
use api_gateway.Clock.{Time, is_zero, after}
use api_gateway.Entity.{PlatformKey}
use api_gateway.Gateway.{
  Gateway, KeyModelBlock, pair, eq_pair_iff, pair_eq, is_blocked, purge_expired_block,
  filter_blocked_keys,
}

abbrev pub in_force : Option KeyModelBlock → Time → Bool
in_force none now = false
in_force (some b) now = is_zero b.expires_at || after b.expires_at now

-- Whether a pair is blocked at a time.
unfoldable pub blocked_at : Time → ℤ → ℤ → Gateway → Bool
blocked_at now key_id rapi_id g = in_force (get (pair key_id rapi_id) g.blocks) now

-- Two gateways have the same scheduler and block the same pairs at a time.
pub record AgreesAt (now : Time) (g h : Gateway) : Type 0 where
  pub schedulers : h.scheduler ≡ g.scheduler
  pub ttls : h.block_ttl ≡ g.block_ttl
  pub blocked : (k r : ℤ) → blocked_at now k r h ≡ blocked_at now k r g

abbrev pub is_given : Option String → Bool
is_given none = false
is_given (some r) = true

is_blocked_lem :
    (now : Time) (k r : ℤ) (g : Gateway) → is_given (is_blocked now k r g).1 ≡ blocked_at now k r g
unfolding is_blocked purge_expired_block blocked_at
is_blocked_lem now k r g = elim (Option-cases (get (pair k r) g.blocks)) [
  | inl e ↦ rw (e, is_blocked) refl
  | inr (b, e) ↦ rw (e, is_blocked, purge_expired_block) (ground arith)
]

-- A lapsed block that is purged was not in force.
deleted_at :
    (now : Time) (k r j s : ℤ) (g : Gateway)
    → blocked_at now k r g ≡ false
    → in_force (get (pair j s) (delete (pair k r) g.blocks)) now ≡ blocked_at now j s g
unfolding blocked_at
deleted_at now k r j s g h =
    ground (arith, h, get-delete (pair k r) (pair j s) g.blocks, eq_pair_iff (pair k r) (pair j s))

kept_at :
    (now : Time) (k r j s : ℤ) (g : Gateway)
    → blocked_at now j s (is_blocked now k r g).0 ≡ blocked_at now j s g
unfolding is_blocked purge_expired_block blocked_at
kept_at now k r j s g = elim (Option-cases (get (pair k r) g.blocks)) [
  | inl e ↦ rw (e, is_blocked) refl
  | inr (b, e) ↦
      rw (e, is_blocked, purge_expired_block) (ground (arith, e, deleted_at now k r j s g))
]

pub is_blocked-AgreesAt :
    (now : Time) (k r : ℤ) (g : Gateway) → AgreesAt now g (is_blocked now k r g).0
unfolding is_blocked purge_expired_block
is_blocked-AgreesAt now k r g = record {
  schedulers = ground arith;
  ttls = ground arith;
  blocked = λ j s. kept_at now k r j s g;
}

AgreesAt-trans :
    {now : Time} {g h i : Gateway} → AgreesAt now g h → AgreesAt now h i → AgreesAt now g i
AgreesAt-trans a b = record {
  schedulers = b.schedulers ∙ a.schedulers;
  ttls = b.ttls ∙ a.ttls;
  blocked = λ k r. b.blocked k r ∙ a.blocked k r;
}

keep_if_same {ℓ} :
    {A : Type ℓ} {p q : A → Bool}
    → ((a : A) → p a ≡ q a)
    → (xs : List A) → keep_if (λ a. not (p a)) xs ≡ keep_if (λ a. not (q a)) xs
keep_if_same h [] = refl
keep_if_same h (x ∷ xs) = rw (h x, keep_if_same h xs) refl

-- Filtering a pool gives its keys that are not blocked, in order, and changes nothing else at that time.
pub filter_blocked_keys_lem :
    (now : Time) (r : ℤ) (ks : List PlatformKey) (g : Gateway)
    → AgreesAt now g (filter_blocked_keys now r ks g).0
      × ((filter_blocked_keys now r ks g).1 ≡ keep_if (λ k. not (blocked_at now k.id r g)) ks)
unfolding filter_blocked_keys
filter_blocked_keys_lem now r [] g =
    (record { schedulers = refl; ttls = refl; blocked = λ k s. refl }, refl)
filter_blocked_keys_lem now r (k ∷ ks) g =
    let g' = (is_blocked now k.id r g).0 in
    let a = is_blocked-AgreesAt now k.id r g in
    let ih = filter_blocked_keys_lem now r ks g' in
    let b = AgreesAt-trans a ih.0 in
    let same : keep_if (λ j. not (blocked_at now j.id r g')) ks
        ≡ keep_if (λ j. not (blocked_at now j.id r g)) ks =
      keep_if_same (λ j. a.blocked j.id r) ks in
    elim (Option-cases (is_blocked now k.id r g).1) [
      | inl e ↦
          rw (e, filter_blocked_keys)
            (b, ground (arith, e, same, ih.1, is_blocked_lem now k.id r g))
      | inr (s, e) ↦
          rw (e, filter_blocked_keys)
            (b, ground (arith, e, same, ih.1, is_blocked_lem now k.id r g))
    ]
