-- ===== src/Service/SyncMerge/Unique.antt =====
-- internal/service/sync_merge.go: searching rows by their keys.
use api_gateway.Prelude.{
  ◌≡◌, refl, sym, subst, ap, ◌∙◌, true, false, none, some, List, [], ◌∷◌, arith, Eq, same,
  same_refl, get, put, get-put, Bool-cases, inl, inr, All,
}
use api_gateway.Service.SyncMerge.{index_row, row_map}
use api_gateway.Service.SyncMerge.Rows.{is_some, either}

module _ {A K : Type 0} ⦃eq : Eq K⦄ (key : A → K) where
  -- No two rows have the same key.
  abbrev pub AreUnique : List A → Type 0
  AreUnique [] = Unit
  AreUnique (p ∷ ps) = All (λ q. same (key p) (key q) ≡ false) ps × AreUnique ps

  pub unique_row :
      (p : A) (ps : List A) (k : K)
      → All (λ q. same (key p) (key q) ≡ false) ps
      → same (key p) k ≡ true
      → index_row key ps k ≡ none
  unfolding index_row
  unique_row p [] k a h = refl
  unique_row p (q ∷ ps) k a h = ground (
    arith,
    a.0,
    h,
    eq.beq_iff (key p) k,
    eq.beq_iff (key q) k,
    eq.beq_iff (key p) (key q),
    unique_row p ps k a.1,
  )

  -- The map of rows with distinct keys finds what a search does.
  pub row_map-index_row :
      (ps : List A) (m : List (K × A)) (k : K)
      → AreUnique ps
      → get k (row_map key ps m) ≡ either (index_row key ps k) (get k m)
  unfolding row_map index_row
  row_map-index_row [] m k u = refl
  row_map-index_row (p ∷ ps) m k u = ground (
    arith,
    row_map-index_row ps (put (key p) p m) k u.1,
    get-put (key p) k p m,
    unique_row p ps k u.0,
  )

  -- What holds of all rows holds of the row that a search finds, which has the key.
  pub found_row {κ} :
      (P : A → Type κ) (ps : List A) (k : K) (q : A)
      → All P ps
      → index_row key ps k ≡ some q
      → P q × (key q ≡ k)
  unfolding index_row
  found_row P [] k q a h = absurd (ground (arith, h))
  found_row P (p ∷ ps) k q a h = elim (Bool-cases (same (key p) k)) [
    | inl e ↦
        let here : p ≡ q = ground (arith, e, h) in
        (subst P here a.0, ap key (sym here) ∙ (eq.beq_iff (key p) k).0 e)
    | inr e ↦ found_row P ps k q a.1 (ground (arith, e, h))
  ]

  weaken_rows :
      (p : A) (ps qs : List A)
      → All (λ q. same (key p) (key q) ≡ false) qs
      → All (λ q. index_row key ps (key q) ≡ some q) qs
      → All (λ q. index_row key (p ∷ ps) (key q) ≡ some q) qs
  unfolding index_row
  weaken_rows p ps [] a b = tt
  weaken_rows p ps (q ∷ qs) a b = (ground (arith, a.0, b.0), weaken_rows p ps qs a.1 b.1)

  -- Among rows with distinct keys a search by a row's key finds the row.
  pub own_rows : (ps : List A) → AreUnique ps → All (λ q. index_row key ps (key q) ≡ some q) ps
  unfolding index_row
  own_rows [] u = tt
  own_rows (p ∷ ps) u =
      (ground (arith, same_refl (key p)), weaken_rows p ps ps u.0 (own_rows ps u.1))

  weaken_has :
      (p : A) (ps qs : List A)
      → All (λ q. is_some (index_row key ps (key q)) ≡ true) qs
      → All (λ q. is_some (index_row key (p ∷ ps) (key q)) ≡ true) qs
  unfolding index_row
  weaken_has p ps [] b = tt
  weaken_has p ps (q ∷ qs) b = (ground (arith, b.0), weaken_has p ps qs b.1)

  pub has_rows : (ps : List A) → All (λ q. is_some (index_row key ps (key q)) ≡ true) ps
  unfolding index_row
  has_rows [] = tt
  has_rows (p ∷ ps) = (ground (arith, same_refl (key p)), weaken_has p ps ps (has_rows ps))
