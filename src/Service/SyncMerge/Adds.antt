-- ===== src/Service/SyncMerge/Adds.antt =====
-- internal/service/sync_merge.go: when the summary says that the union has something that the center has not.
use api_gateway.Prelude.{
  ◌≡◌, ◌↔◌, refl, sym, subst, Bool, true, false, not, Option, none, some, List, [], ◌∷◌, String,
  arith, Eq, get, Option-cases, Bool-cases, inl, inr, All,
}
use api_gateway.Service.SyncMerge.{
  MergeSummary, index_row, row_map, scan_local, scan_center, union_rows, add_conflict, increment,
}
use api_gateway.Service.SyncMerge.Rows.{is_some, either, union_rows-index_row}
use api_gateway.Service.SyncMerge.Unique.{
  AreUnique, row_map-index_row, found_row, own_rows, has_rows,
}

All-map {ℓ κ} :
    {A : Type ℓ} {P Q : A → Type κ} → ((a : A) → P a → Q a) → (xs : List A) → All P xs → All Q xs
All-map f [] h = tt
All-map f (x ∷ xs) h = (f x h.0, All-map f xs h.1)

-- Whether a row of the center is not the one with its key in a map.
abbrev pub clashes : {A : Type 0} → (A → A → Bool) → Option A → A → Bool
clashes equal none p = false
clashes equal (some q) p = not (equal q p)

-- Whether two results of a search are alike.
abbrev pub Alike : {A : Type 0} → (A → A → Bool) → Option A → Option A → Type 0
Alike equal none none = Unit
Alike equal (some a) (some b) = equal a b ≡ true
Alike equal none (some b) = ⊥
Alike equal (some a) none = ⊥

module _ {A K : Type 0} ⦃eq : Eq K⦄ (key : A → K) (equal : A → A → Bool) (table : String)
    (label : A → String) where
  Alike-is_some :
      (o c : Option A) → is_some o ≡ true → Alike equal (either o c) c → is_some c ≡ true
  Alike-is_some none c m h = absurd (ground (arith, m))
  Alike-is_some (some a) none m h = absurd h
  Alike-is_some (some a) (some b) m h = refl

  Alike-clashes :
      (o c : Option A) (a : A) → c ≡ some a → Alike equal (either o c) c → clashes equal o a ≡ false
  Alike-clashes none c a m h = refl
  Alike-clashes (some q) none a m h = absurd h
  Alike-clashes (some q) (some b) a m h = ground (arith, m, h)

  scan_local_adds :
      (center ps : List A) (s : MergeSummary)
      → (scan_local key table center ps s).adds_to_center ≡ false
        ↔ (s.adds_to_center ≡ false) × All (λ p. is_some (index_row key center (key p)) ≡ true) ps
  unfolding scan_local
  scan_local_adds center [] s = (λ h. (h, tt), λ h. h.0)
  scan_local_adds center (p ∷ ps) s = elim (Option-cases (index_row key center (key p))) [
    | inl e ↦
        let t = record s { kept_local = increment table s.kept_local; adds_to_center = true } in
        rw (e, scan_local)
          (
            (λ h. absurd (ground (arith, ((scan_local_adds center ps t).0 h).0))),
            (λ h. absurd (ground (arith, h.1.0))),
          )
    | inr (q, e) ↦
        let ih = scan_local_adds center ps s in
        rw (e, scan_local) ((λ h. let r = ih.0 h in (r.0, (refl, r.1))), (λ h. ih.1 (h.0, h.1.1)))
  ]

  scan_center_adds :
      (locals : List (K × A)) (ps : List A) (s : MergeSummary)
      → (scan_center key equal table label locals ps s).1.adds_to_center ≡ false
        ↔ (s.adds_to_center ≡ false) × All (λ p. clashes equal (get (key p) locals) p ≡ false) ps
  unfolding scan_center
  scan_center_adds locals [] s = (λ h. (h, tt), λ h. h.0)
  scan_center_adds locals (p ∷ ps) s = elim (Option-cases (get (key p) locals)) [
    | inl e ↦
        let t = record s { from_center = increment table s.from_center } in
        let ih = scan_center_adds locals ps t in
        rw (e, scan_center) ((λ h. let r = ih.0 h in (r.0, (refl, r.1))), (λ h. ih.1 (h.0, h.1.1)))
    | inr (q, e) ↦ elim (Bool-cases (equal q p)) [
      | inl f ↦
          let ih = scan_center_adds locals ps s in
          rw (e, f, scan_center)
            ((λ h. let r = ih.0 h in (r.0, (refl, r.1))), (λ h. ih.1 (h.0, h.1.1)))
      | inr f ↦
          let ih =
            scan_center_adds locals ps
              (record (add_conflict table (label p) s) { adds_to_center = true }) in
          rw (e, f, scan_center)
            ((λ h. absurd (ground (arith, (ih.0 h).0))), (λ h. absurd (ground (arith, h.1.0))))
    ]
  ]

  union_rows_adds :
      (local center : List A) (s : MergeSummary)
      → (union_rows key equal table label local center s).1.adds_to_center ≡ false
        ↔ (s.adds_to_center ≡ false)
          × All (λ p. is_some (index_row key center (key p)) ≡ true) local
          × All (λ p. clashes equal (get (key p) (row_map key local [])) p ≡ false) center
  unfolding union_rows
  union_rows_adds local center s =
      let c =
        scan_center_adds (row_map key local []) center (scan_local key table center local s) in
      let l = scan_local_adds center local s in
      ((λ h. let r = c.0 h in let t = l.0 r.0 in (t.0, t.1, r.1)), (λ h. c.1 (l.1 (h.0, h.1), h.2)))

  -- For rows with distinct keys on both sides: the summary gets no addition from them exactly if each key
  -- finds in the union what it finds in the center, up to the comparison of the rows.
  pub union_rows-Alike :
      (local center : List A) (s : MergeSummary)
      → AreUnique key local
      → AreUnique key center
      → ((a : A) → equal a a ≡ true)
      → (union_rows key equal table label local center s).1.adds_to_center ≡ false
        ↔ (s.adds_to_center ≡ false)
          × ((k : K)
              → Alike equal
                  (index_row key (union_rows key equal table label local center s).0 k)
                  (index_row key center k))
  unfolding get
  union_rows-Alike local center s ul uc alike = (
    (λ h.
        let r = (union_rows_adds local center s).0 h in
        (
          r.0,
          λ k.
              subst (λ o. Alike equal o (index_row key center k))
                (sym (union_rows-index_row key equal table label local center s k))
                (forth r.1 r.2 k),
        )),
    (λ h. (union_rows_adds local center s).1 (h.0, back_local h.1, back_center h.1)),
  )
    where
      alike_self : (o : Option A) → Alike equal o o
      alike_self none = tt
      alike_self (some a) = alike a

      forth :
          All (λ p. is_some (index_row key center (key p)) ≡ true) local
          → All (λ p. clashes equal (get (key p) (row_map key local [])) p ≡ false) center
          → (k : K)
          → Alike equal
              (either (index_row key local k) (index_row key center k))
              (index_row key center k)
      forth a b k = elim (Option-cases (index_row key local k)) [
        | inl e ↦ rw e (alike_self (index_row key center k))
        | inr (p, e) ↦
            let f = found_row key _ local k p a e in
            elim (Option-cases (index_row key center k)) [
              | inl n ↦ absurd (ground (arith, f.0, f.1, n))
              | inr (q, i) ↦
                  let g = found_row key _ center k q b i in
                  rw (e, i) (ground (arith, g.0, g.1, e, row_map-index_row key local [] k ul))
            ]
      ]

      in_union :
          ((k : K)
            → Alike equal
                (index_row key (union_rows key equal table label local center s).0 k)
                (index_row key center k))
          → (k : K)
          → Alike equal
              (either (index_row key local k) (index_row key center k))
              (index_row key center k)
      in_union h k =
          subst (λ o. Alike equal o (index_row key center k))
            (union_rows-index_row key equal table label local center s k) (h k)

      back_local :
          ((k : K)
            → Alike equal
                (index_row key (union_rows key equal table label local center s).0 k)
                (index_row key center k))
          → All (λ p. is_some (index_row key center (key p)) ≡ true) local
      back_local h =
          All-map (λ p m. Alike-is_some _ _ m (in_union h (key p))) local (has_rows key local)

      back_center :
          ((k : K)
            → Alike equal
                (index_row key (union_rows key equal table label local center s).0 k)
                (index_row key center k))
          → All (λ p. clashes equal (get (key p) (row_map key local [])) p ≡ false) center
      back_center h =
          let one : (p : A)
              → index_row key center (key p) ≡ some p
              → clashes equal (get (key p) (row_map key local [])) p ≡ false =
            λ p m. ground (
              arith,
              row_map-index_row key local [] (key p) ul,
              Alike-clashes (index_row key local (key p)) (index_row key center (key p)) p m
                  (in_union h (key p)),
            ) in
          All-map one center (own_rows key center uc)
