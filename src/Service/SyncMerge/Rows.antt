-- ===== src/Service/SyncMerge/Rows.antt =====
-- internal/service/sync_merge.go: the rows and the summary of one kind of row.
use mathlib.Core.List.{append-nil}
use api_gateway.Prelude.{
  ◌≡◌, refl, ap, ◌∙◌, Bool, true, false, not, ◌||◌, Option, none, some, List, [], ◌∷◌, ◌++◌, String,
  arith, if◌then◌else◌, Eq, same, same_refl, get, put, get-put, Option-cases, Bool-cases, inl, inr,
  keep_if,
}
use api_gateway.Service.SyncMerge.{
  MergeSummary, index_row, row_map, scan_center, union_rows, increment,
}

abbrev pub is_some {ℓ} : {A : Type ℓ} → Option A → Bool
is_some none = false
is_some (some a) = true

-- The first of two results that is there.
abbrev pub either {ℓ} : {A : Type ℓ} → Option A → Option A → Option A
either none b = b
either (some a) b = some a

keep_if_same {ℓ} :
    {A : Type ℓ} (f g : A → Bool)
    → ((a : A) → f a ≡ g a)
    → (xs : List A) → keep_if f xs ≡ keep_if g xs
keep_if_same f g h [] = refl
keep_if_same f g h (x ∷ xs) = ground (arith, h x, keep_if_same f g h xs)

or_nothing : (b : Bool) → (b || false) ≡ b
or_nothing b = ground arith

module _ {A K : Type 0} ⦃eq : Eq K⦄ (key : A → K) where
  index_row-append :
      (k : K) (xs ys : List A)
      → index_row key (xs ++ ys) k ≡ either (index_row key xs k) (index_row key ys k)
  unfolding index_row
  index_row-append k [] ys = refl
  index_row-append k (x ∷ xs) ys = ground (arith, index_row-append k xs ys)

  index_row-keep_if :
      (f : K → Bool) (k : K) (ps : List A)
      → index_row key (keep_if (λ p. not (f (key p))) ps) k
        ≡ (if f k then none else index_row key ps k)
  unfolding index_row
  index_row-keep_if f k [] = ground arith
  index_row-keep_if f k (p ∷ ps) = elim (Bool-cases (same (key p) k)) [
    | inl e ↦
        let e' = (eq.beq_iff (key p) k).0 e in ground (arith, e, ap f e', index_row-keep_if f k ps)
    | inr e ↦ ground (arith, e, index_row-keep_if f k ps)
  ]

  row_map-has :
      (k : K) (ps : List A) (m : List (K × A))
      → is_some (get k (row_map key ps m)) ≡ (is_some (index_row key ps k) || is_some (get k m))
  unfolding row_map index_row
  row_map-has k [] m = refl
  row_map-has k (p ∷ ps) m =
      ground (arith, row_map-has k ps (put (key p) p m), get-put (key p) k p m)

  keep_if_nothing :
      (f : K → Bool) (ps : List A)
      → ((k : K) → is_some (index_row key ps k) ≡ true → f k ≡ true)
      → keep_if (λ p. not (f (key p))) ps ≡ []
  unfolding index_row
  keep_if_nothing f [] h = refl
  keep_if_nothing f (p ∷ ps) h = ground (
    arith,
    h (key p) (ground (arith, same_refl (key p))),
    keep_if_nothing f ps (λ k i. h k (ground (arith, i))),
  )

module _ {A K : Type 0} ⦃eq : Eq K⦄ (key : A → K) (equal : A → A → Bool) (table : String)
    (label : A → String) where
  scan_center_rows :
      (locals : List (K × A)) (ps : List A) (s : MergeSummary)
      → (scan_center key equal table label locals ps s).0
        ≡ keep_if (λ p. not (is_some (get (key p) locals))) ps
  unfolding scan_center
  scan_center_rows locals [] s = refl
  scan_center_rows locals (p ∷ ps) s = elim (Option-cases (get (key p) locals)) [
    | inl e ↦
        rw (e, scan_center)
          (ap (λ l. p ∷ l)
            (scan_center_rows locals ps (record s { from_center = increment table s.from_center })))
    | inr (q, e) ↦ rw (e, scan_center) (scan_center_rows locals ps _)
  ]

  union_rows_lem :
      (local center : List A) (s : MergeSummary)
      → (union_rows key equal table label local center s).0
        ≡ local ++ keep_if (λ p. not (is_some (get (key p) (row_map key local [])))) center
  unfolding union_rows
  union_rows_lem local center s = ap (λ l. local ++ l) (scan_center_rows _ center _)

  pub union_rows_missing :
      (local center : List A) (s : MergeSummary)
      → (union_rows key equal table label local center s).0
        ≡ local ++ keep_if (λ p. not (is_some (index_row key local (key p)))) center
  unfolding get
  union_rows_missing local center s =
      union_rows_lem local center s
      ∙ ap (λ l. local ++ l) (keep_if_same _ _ (λ p. ap not (in_map (key p))) center)
    where
      in_map : (k : K) → is_some (get k (row_map key local [])) ≡ is_some (index_row key local k)
      in_map k = row_map-has key k local [] ∙ or_nothing (is_some (index_row key local k))

  -- A key is looked up in the union first among the local rows, then among the center's.
  pub union_rows-index_row :
      (local center : List A) (s : MergeSummary) (k : K)
      → index_row key (union_rows key equal table label local center s).0 k
        ≡ either (index_row key local k) (index_row key center k)
  unfolding get
  union_rows-index_row local center s k =
      rw
        (
          union_rows_lem local center s,
          index_row-append key k local
              (keep_if (λ p. not (is_some (get (key p) (row_map key local [])))) center),
          index_row-keep_if key (λ j. is_some (get j (row_map key local []))) k center,
          row_map-has key k local [],
        )
        (ground arith)

  -- The union with the same center again adds no row.
  pub union_rows_again :
      (local center : List A) (s t : MergeSummary)
      → let rows = (union_rows key equal table label local center s).0 in
        (union_rows key equal table label rows center t).0 ≡ rows
  unfolding get
  union_rows_again local center s t =
      let rows = (union_rows key equal table label local center s).0 in
      union_rows_lem rows center t
      ∙ ap (λ l. rows ++ l)
          (keep_if_nothing key (λ k. is_some (get k (row_map key rows []))) center
            (λ k h.
              row_map-has key k rows []
              ∙ rw (union_rows-index_row local center s k) (ground (arith, h))))
      ∙ append-nil rows
