-- ===== src/Entity/Rows.antt =====
-- internal/entity/entity.go: when a pool of credentials is dead.
use mathlib.Core.Bool.{false≢true}
use text.Mathlib.Text.{◌==◌ as str_eq}
use text.Mathlib.TextEquality.{eq_iff}
use api_gateway.Prelude.{
  ◌≡◌, ◌≢◌, refl, sym, ◌∙◌, ◌↔◌, inl, inr, true, false, not, List, [], ◌∷◌, String, arith, All,
  Bool-cases,
}
use api_gateway.Clock.{Time}
use api_gateway.Entity.{
  PlatformKey, key_row_usable, row_failure_reason, hard_dead_from, keys_hard_dead, is_permanent,
  has_expired, default_reason,
}

-- No key of the pool is usable by its row.
abbrev pub AllDead : List PlatformKey → Time → Type 0
AllDead ks now = All (λ k. key_row_usable k now ≡ false) ks

hard_dead_from_iff :
    (reason : String) (now : Time) (ks : List PlatformKey)
    → ((hard_dead_from reason now ks).0 ≡ true) ↔ AllDead ks now
unfolding hard_dead_from
hard_dead_from_iff reason now [] = ((λ _. tt), λ _. refl)
hard_dead_from_iff reason now (k ∷ ks) = elim (Bool-cases (key_row_usable k now)) [
  | inl u ↦ rw u ((λ h. cc), λ h. cc)
  | inr u ↦
      let (f, g) = hard_dead_from_iff (default_reason reason (row_failure_reason k now)) now ks in
      rw u ((λ h. (refl, f h)), λ h. g h.1)
]

-- KeysHardDead reports true for exactly the non-empty pools of which no row is usable.
pub keys_hard_dead_iff :
    (ks : List PlatformKey) (now : Time)
    → ((keys_hard_dead ks now).0 ≡ true) ↔ ((ks ≢ []) × AllDead ks now)
unfolding keys_hard_dead
keys_hard_dead_iff [] now = ((λ h. cc), λ h. absurd (h.0 refl))
keys_hard_dead_iff (k ∷ ks) now =
    let (f, g) = hard_dead_from_iff "" now (k ∷ ks) in ((λ h. ((λ e. cc), f h)), λ h. g h.1)

ne_empty : (s : String) → str_eq s "" ≡ false → s ≢ ""
ne_empty s h e = let g = (eq_iff s "").1 e in cc

row_failure_reason-ne_empty :
    (k : PlatformKey) (now : Time) → key_row_usable k now ≡ false → row_failure_reason k now ≢ ""
unfolding key_row_usable row_failure_reason
row_failure_reason-ne_empty k now h = elim (Bool-cases (not k.enabled)) [
  | inl e ↦ rw e (ne_empty "Key 已禁用" refl)
  | inr e ↦ elim (Bool-cases (is_permanent k.failure_type)) [
    | inl p ↦
        rw (e, p)
          (elim (Bool-cases (str_eq k.failure_reason "")) [
            | inl f ↦ rw f (ne_empty "Key 永久失效 (401/402/403)" refl)
            | inr f ↦ rw f (ne_empty k.failure_reason f)
          ])
    | inr p ↦ elim (Bool-cases (has_expired k.expires_at now)) [
      | inl x ↦ rw (e, p, x) (ne_empty "Key 已过期" refl)
      | inr x ↦ absurd (false≢true (sym h ∙ rw (e, p, x) refl))
    ]
  ]
]

hard_dead_from-ne_empty :
    (reason : String) (now : Time) (ks : List PlatformKey)
    → reason ≢ ""
    → (hard_dead_from reason now ks).0 ≡ true
    → (hard_dead_from reason now ks).1 ≢ ""
unfolding hard_dead_from
hard_dead_from-ne_empty reason now [] r h = r
hard_dead_from-ne_empty reason now (k ∷ ks) r h = ground (
  arith,
  eq_iff reason "",
  hard_dead_from-ne_empty (default_reason reason (row_failure_reason k now)) now ks,
)

-- Whenever KeysHardDead reports a dead pool, the reason that it gives is not empty.
pub keys_hard_dead-reason :
    (ks : List PlatformKey) (now : Time)
    → (keys_hard_dead ks now).0 ≡ true
    → (keys_hard_dead ks now).1 ≢ ""
unfolding keys_hard_dead hard_dead_from
keys_hard_dead-reason [] now h = cc
keys_hard_dead-reason (k ∷ ks) now h = ground (
  arith,
  row_failure_reason-ne_empty k now,
  hard_dead_from-ne_empty (row_failure_reason k now) now ks,
)
