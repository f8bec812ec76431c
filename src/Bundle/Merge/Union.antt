-- ===== src/Bundle/Merge/Union.antt =====
-- internal/bundle/merge.go: which row a union holds for a key.
use api_gateway.Prelude.{
  ◌≡◌, refl, ◌∙◌, sym, ap, subst, Bool, true, false, ◌&&◌, Option, none, some, List, [], ◌∷◌,
  String, arith, if◌then◌else◌, Eq, same, keep_if, All, Bool-cases, inl, inr,
}
use api_gateway.Bundle.{
  Platform, CredentialBinding, EndpointRef, BindingRef, platform_key, string_eq, endpoint_eq,
  binding_eq,
}
use api_gateway.Bundle.Merge.{
  Library, ConflictRule, is_center_first, add_row, add_rows, merge_rows, binding_ref,
  merge_platforms, merge_bindings,
}

abbrev pub or_else {ℓ} : {A : Type ℓ} → Option A → Option A → Option A
or_else none b = b
or_else (some a) b = some a

or_else-none {ℓ} : {A : Type ℓ} (a : Option A) → or_else a none ≡ a
or_else-none none = refl
or_else-none (some a) = refl

or_else_assoc {ℓ} :
    {A : Type ℓ} (a b c : Option A) → or_else (or_else a b) c ≡ or_else a (or_else b c)
or_else_assoc none b c = refl
or_else_assoc (some a) b c = refl

module _ {ℓ} {A K : Type ℓ} ⦃eq : Eq K⦄ (key : A → K) where
  -- The first and the last row of a list with a key.
  unfoldable pub first_of : K → List A → Option A
  first_of k [] = none
  first_of k (r ∷ rs) = if same (key r) k then some r else first_of k rs

  unfoldable pub last_of : K → List A → Option A
  last_of k [] = none
  last_of k (r ∷ rs) = or_else (last_of k rs) (if same (key r) k then some r else none)

  -- The row that a rule chooses for a key: the first one, the center's before the local ones, or the last
  -- one, the local ones before the center's.
  pub chosen : Bool → K → List A → List A → Option A
  unfolding first_of last_of
  chosen true k center local = or_else (first_of k center) (first_of k local)
  chosen false k center local = or_else (last_of k local) (last_of k center)

  -- No two rows have the same key.
  abbrev pub HasDistinctKeys : List A → Type 0
  HasDistinctKeys [] = Unit
  HasDistinctKeys (r ∷ rs) = All (λ q. same (key r) (key q) ≡ false) rs × HasDistinctKeys rs

  first_of-keep_if :
      (ok : K → Bool) (k : K) (rs : List A)
      → first_of k (keep_if (λ r. ok (key r)) rs) ≡ (if ok k then first_of k rs else none)
  unfolding first_of
  first_of-keep_if ok k [] = ground arith
  first_of-keep_if ok k (r ∷ rs) = ground (arith, eq.beq_iff (key r) k, first_of-keep_if ok k rs)

module _ {ℓ} {A K : Type ℓ} ⦃eq : Eq K⦄ (key : A → K) (diff : A → A → List String) where
  add_row-first :
      (k : K) (p : A) (out : List A)
      → first_of key k (add_row key diff true p out).0
        ≡ or_else (first_of key k out) (if same (key p) k then some p else none)
  unfolding add_row first_of
  add_row-first k p [] = refl
  add_row-first k p (q ∷ out) = ground (
    arith,
    eq.beq_iff (key q) (key p),
    eq.beq_iff (key q) k,
    eq.beq_iff (key p) k,
    or_else-none (first_of key k out),
    add_row-first k p out,
  )

  add_rows-first :
      (k : K) (ps out : List A)
      → first_of key k (add_rows key diff true ps out).0
        ≡ or_else (first_of key k out) (first_of key k ps)
  unfolding add_rows first_of
  add_rows-first k [] out = sym (or_else-none (first_of key k out))
  add_rows-first k (p ∷ ps) out =
      add_rows-first k ps (add_row key diff true p out).0
      ∙ ap (λ o. or_else o (first_of key k ps)) (add_row-first k p out)
      ∙ ground (arith, or_else-none (first_of key k out))

  module _ (exact : (a b : A) → diff a b ≡ [] → a ≡ b) where
    add_row-last :
        (k : K) (p : A) (out : List A)
        → first_of key k (add_row key diff false p out).0
          ≡ (if same (key p) k then some p else first_of key k out)
    unfolding add_row first_of
    add_row-last k p [] = refl
    add_row-last k p (q ∷ out) = ground (
      arith,
      eq.beq_iff (key q) (key p),
      eq.beq_iff (key q) k,
      eq.beq_iff (key p) k,
      exact q p,
      add_row-last k p out,
    )

    add_rows-last :
        (k : K) (ps out : List A)
        → first_of key k (add_rows key diff false ps out).0
          ≡ or_else (last_of key k ps) (first_of key k out)
    unfolding add_rows last_of
    add_rows-last k [] out = refl
    add_rows-last k (p ∷ ps) out =
        add_rows-last k ps (add_row key diff false p out).0
        ∙ ap (or_else (last_of key k ps)) (add_row-last k p out)
        ∙ ground arith

    merge_rows-chosen :
        (center_first : Bool) (k : K) (center local : List A)
        → first_of key k (merge_rows key diff center_first center local).0
          ≡ chosen key center_first k center local
    unfolding merge_rows chosen first_of
    merge_rows-chosen true k center local =
        add_rows-first k local (add_rows key diff true center []).0
        ∙ ap (λ o. or_else o (first_of key k local)) (add_rows-first k center [])
    merge_rows-chosen false k center local =
        add_rows-last k local (add_rows key diff false center []).0
        ∙ ap (or_else (last_of key k local)) (add_rows-last k center [])
        ∙ ap (or_else (last_of key k local)) (or_else-none (last_of key k center))

  add_row-All :
      (P : A → Type 0) (center_first : Bool) (p : A) (out : List A)
      → P p
      → All P out
      → All P (add_row key diff center_first p out).0
  unfolding add_row
  add_row-All P center_first p [] h a = (h, tt)
  add_row-All P center_first p (q ∷ out) h a = elim (Bool-cases (same (key q) (key p))) [
    | inr e ↦ rw e (a.0, add_row-All P center_first p out h a.1)
    | inl e ↦ rw e (ground arith)
  ]

  add_row-HasDistinctKeys :
      (center_first : Bool) (p : A) (out : List A)
      → HasDistinctKeys key out
      → HasDistinctKeys key (add_row key diff center_first p out).0
  unfolding add_row
  add_row-HasDistinctKeys center_first p [] d = (tt, tt)
  add_row-HasDistinctKeys center_first p (q ∷ out) d = elim (Bool-cases (same (key q) (key p))) [
    | inr e ↦
        rw e
          (add_row-All _ center_first p out e d.0, add_row-HasDistinctKeys center_first p out d.1)
    | inl e ↦
        let g : key q ≡ key p = (eq.beq_iff (key q) (key p)).0 e in
        let h : All (λ r. same (key p) (key r) ≡ false) out =
          subst (λ x. All (λ r. same x (key r) ≡ false) out) g d.0 in
        rw e (ground (arith, h))
  ]

  add_rows-HasDistinctKeys :
      (center_first : Bool) (ps out : List A)
      → HasDistinctKeys key out
      → HasDistinctKeys key (add_rows key diff center_first ps out).0
  unfolding add_rows
  add_rows-HasDistinctKeys center_first [] out d = d
  add_rows-HasDistinctKeys center_first (p ∷ ps) out d =
      add_rows-HasDistinctKeys center_first ps (add_row key diff center_first p out).0
        (add_row-HasDistinctKeys center_first p out d)

  pub merge_rows-HasDistinctKeys :
      (center_first : Bool) (center local : List A)
      → HasDistinctKeys key (merge_rows key diff center_first center local).0
  unfolding merge_rows
  merge_rows-HasDistinctKeys center_first center local =
      add_rows-HasDistinctKeys center_first local (add_rows key diff center_first center []).0
        (add_rows-HasDistinctKeys center_first center [] tt)

  pub keep_if-HasDistinctKeys :
      (ok : A → Bool) (rs : List A) → HasDistinctKeys key rs → HasDistinctKeys key (keep_if ok rs)
  keep_if-HasDistinctKeys ok [] d = tt
  keep_if-HasDistinctKeys ok (r ∷ rs) d = elim (Bool-cases (ok r)) [
    | inl e ↦ rw e (keep_if-All (key r) rs d.0, keep_if-HasDistinctKeys ok rs d.1)
    | inr e ↦ rw e (keep_if-HasDistinctKeys ok rs d.1)
  ]
    where
      keep_if-All :
          (k : K) (qs : List A)
          → All (λ q. same k (key q) ≡ false) qs
          → All (λ q. same k (key q) ≡ false) (keep_if ok qs)
      keep_if-All k [] a = tt
      keep_if-All k (q ∷ qs) a = elim (Bool-cases (ok q)) [
        | inl e ↦ rw e (a.0, keep_if-All k qs a.1)
        | inr e ↦ rw e (keep_if-All k qs a.1)
      ]

-- The merged platforms have distinct addresses, and hold for each address the row that the rule chooses:
-- with CenterWins the first one of the center's and then the local rows, with LocalWins the last one.
-- Rows without a differing field are equal.
pub merge_platforms-chosen :
    (lib : Library) (rule : ConflictRule) (center local : List Platform) (url : String)
    → ((a b : Platform) → lib.diff_platform a b ≡ [] → a ≡ b)
    → let rows = (merge_platforms lib rule center local).0 in
      HasDistinctKeys (λ (p : Platform). platform_key p.base_url) rows
      × (first_of (λ (p : Platform). platform_key p.base_url) url rows
          ≡ chosen
              (λ (p : Platform). platform_key p.base_url)
              (is_center_first rule)
              url
              center
              local)
unfolding merge_platforms
merge_platforms-chosen lib rule center local url exact = (
  merge_rows-HasDistinctKeys (λ p. platform_key p.base_url) lib.diff_platform (is_center_first rule)
      center local,
  merge_rows-chosen (λ p. platform_key p.base_url) lib.diff_platform exact (is_center_first rule)
      url center local,
)

-- The merged bindings have distinct references. They hold for a reference the row that the rule chooses,
-- if the endpoint and the credential are there, and no row otherwise, so that no binding dangles. Rows
-- without a differing field are equal.
pub merge_bindings-chosen :
    (lib : Library) (rule : ConflictRule) (endpoint_ok : EndpointRef → Bool)
    (credential_ok : String → Bool) (center local : List CredentialBinding) (ref : BindingRef)
    → ((a b : CredentialBinding) → lib.diff_binding a b ≡ [] → a ≡ b)
    → let rows = (merge_bindings lib rule endpoint_ok credential_ok center local).0 in
      HasDistinctKeys (binding_ref lib) rows
      × (first_of (binding_ref lib) ref rows ≡ (
          if endpoint_ok ref.endpoint && credential_ok ref.token_hash
          then chosen (binding_ref lib) (is_center_first rule) ref center local
          else none))
unfolding merge_bindings
merge_bindings-chosen lib rule endpoint_ok credential_ok center local ref exact =
    let rows =
      (merge_rows (binding_ref lib) lib.diff_binding (is_center_first rule) center local).0 in
    (
      keep_if-HasDistinctKeys (binding_ref lib) lib.diff_binding _ rows (
          merge_rows-HasDistinctKeys (binding_ref lib) lib.diff_binding (is_center_first rule)
            center local),
      first_of-keep_if (binding_ref lib) (λ k. endpoint_ok k.endpoint && credential_ok k.token_hash)
            ref rows
          ∙ ap (λ o. if endpoint_ok ref.endpoint && credential_ok ref.token_hash then o else none)
              (merge_rows-chosen (binding_ref lib) lib.diff_binding exact (is_center_first rule) ref
                center local),
    )
