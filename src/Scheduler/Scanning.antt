-- ===== src/Scheduler/Scanning.antt =====
-- internal/scheduler/scheduler.go: the outcome of a pick, and the first element of a list that serves.
use mathlib.Core.List.{Mem, Perm, mem-cons_self, mem-cons_of_mem}
use mathlib.Core.List.Perm
use api_gateway.Prelude.{
  ◌≡◌, ◌≢◌, ◌≤◌, ◌⊎◌, refl, sym, subst, ◌∙◌, Bool, true, false, not, List, [], ◌∷◌, arith,
  if◌then◌else◌, All, Bool-cases, inl, inr,
}
use api_gateway.Clock.{Time, min_non_zero, is_zero}
use api_gateway.Scheduler.Sorting.{sort_stable, sort_stable-All_of, IsOrdered, sort_stable-perm}

-- `unavailable at` is the error that all are unavailable, with the earliest recovery, or the zero time.
pub data Picked {ℓ} (A : Type ℓ) : Type ℓ where
  picked : A → Picked A
  unavailable : Time → Picked A

abbrev pub sooner : Time → Time → Time
sooner next at = if not (is_zero at) then min_non_zero next at else next

-- The first row that serves, or the earliest time at which one before it may.
unfoldable pub first_row {ℓ} : {A : Type ℓ} → (A → Bool) → (A → Time) → Time → List A → Picked A
first_row ok at next [] = unavailable next
first_row ok at next (r ∷ rs) =
    let rest = first_row ok at (sooner next (at r)) rs in if ok r then picked r else rest

-- A time that is zero or that of some element.
abbrev pub IsAttained : {A : Type 0} → (A → Time) → List A → Time → Type 0
IsAttained {A = A} at rows next = (next ≡ 0) ⊎ ((y : A) × Mem y rows × (at y ≡ next))

-- What the outcome of a pick says of the elements: a picked one is one of them and serves, and no row that
-- serves is less; if none is picked, no row serves, and the time given is no later than any at which a
-- row may serve again, is that of some row or zero, and is zero only if there is none.
abbrev pub IsBest :
    {A : Type 0} → (A → Bool) → (A → Time) → (A → A → Bool) → List A → Picked A → Type 0
IsBest ok at less rows (picked r) =
    Mem r rows × (ok r ≡ true) × All (λ y. (ok y ≡ false) ⊎ (less y r ≡ false)) rows
IsBest ok at less rows (unavailable next) =
    All (λ y. (ok y ≡ false) × ((at y ≡ 0) ⊎ ((next ≢ 0) × (next ≤ at y)))) rows
    × IsAttained at rows next

pub IsAttained-Perm :
    {A : Type 0} {xs ys : List A} (at : A → Time) (next : Time)
    → Perm xs ys
    → IsAttained at xs next
    → IsAttained at ys next
IsAttained-Perm at next p (inl e) = inl e
IsAttained-Perm at next p (inr (y, m, e)) = inr (y, (Perm.mem_iff p).0 m, e)

sooner_cases : (next at : Time) → (sooner next at ≡ next) ⊎ (sooner next at ≡ at)
sooner_cases next at = ground arith

module _ {A : Type 0} (ok : A → Bool) (at : A → Time) (less : A → A → Bool)
    (irrefl : (a : A) → less a a ≡ false) where
  weaken :
      (r : A) (rs : List A)
      → All (λ y. less y r ≡ false) rs
      → All (λ y. (ok y ≡ false) ⊎ (less y r ≡ false)) rs
  weaken r [] h = tt
  weaken r (y ∷ ys) h = (inr h.0, weaken r ys h.1)

  first_row-picked :
      (rs : List A) (next : Time) (r : A)
      → IsOrdered less rs
      → first_row ok at next rs ≡ picked r
      → Mem r rs × (ok r ≡ true) × All (λ y. (ok y ≡ false) ⊎ (less y r ≡ false)) rs
  unfolding first_row
  first_row-picked [] next r o h = cc
  first_row-picked (x ∷ rs) next r o h = elim (Bool-cases (ok x)) [
    | inl good ↦
        let e : x ≡ r = ground (arith, good) in
        subst
          (λ z.
            Mem z (x ∷ rs)
            × (ok z ≡ true)
            × All (λ y. (ok y ≡ false) ⊎ (less y z ≡ false)) (x ∷ rs))
          e (mem-cons_self, good, (inr (irrefl x), weaken x rs o.0))
    | inr bad ↦
        let ih = first_row-picked rs (sooner next (at x)) r o.1 (ground (arith, bad)) in
        (mem-cons_of_mem x ih.0, ih.1, (inl bad, ih.2))
  ]

  -- The outcome's time is at most the time that the scan starts with, if that is one.
  first_row-next :
      (rs : List A) (next last : Time)
      → first_row ok at next rs ≡ unavailable last
      → (next ≡ 0) ⊎ ((last ≢ 0) × (last ≤ next))
  unfolding first_row
  first_row-next [] next last h = ground arith
  first_row-next (x ∷ rs) next last h = ground (arith, first_row-next rs (sooner next (at x)) last)

  first_row-none :
      (rs : List A) (next last : Time)
      → first_row ok at next rs ≡ unavailable last
      → All (λ y. (ok y ≡ false) × ((at y ≡ 0) ⊎ ((last ≢ 0) × (last ≤ at y)))) rs
  unfolding first_row
  first_row-none [] next last h = tt
  first_row-none (x ∷ rs) next last h = elim (Bool-cases (ok x)) [
    | inl good ↦ absurd (ground (arith, good))
    | inr bad ↦
        let g : first_row ok at (sooner next (at x)) rs ≡ unavailable last = ground (arith, bad) in
        let n = first_row-next rs (sooner next (at x)) last g in
        ((bad, ground arith), first_row-none rs (sooner next (at x)) last g)
  ]

  pub first_row-attained :
      (rs : List A) (next last : Time)
      → first_row ok at next rs ≡ unavailable last
      → (last ≡ next) ⊎ ((y : A) × Mem y rs × (at y ≡ last))
  unfolding first_row
  first_row-attained [] next last h = inl (ground arith)
  first_row-attained (x ∷ rs) next last h = elim (Bool-cases (ok x)) [
    | inl good ↦ absurd (ground (arith, good))
    | inr bad ↦ elim (first_row-attained rs (sooner next (at x)) last (ground (arith, bad))) [
      | inr (y, m, e) ↦ inr (y, mem-cons_of_mem x m, e)
      | inl e ↦ elim (sooner_cases next (at x)) [
        | inl n ↦ inl (e ∙ n)
        | inr n ↦ inr (x, mem-cons_self, sym (e ∙ n))
      ]
    ]
  ]

  -- The first that serves of an ordered list is the best of it.
  pub first_row-IsBest :
      (rs : List A) (out : Picked A)
      → IsOrdered less rs
      → first_row ok at 0 rs ≡ out
      → IsBest ok at less rs out
  first_row-IsBest rs (picked r) o h = first_row-picked rs 0 r o h
  first_row-IsBest rs (unavailable last) o h =
      (first_row-none rs 0 last h, first_row-attained rs 0 last h)

  pub IsBest-sort :
      (rows : List A) (out : Picked A)
      → IsBest ok at less (sort_stable less rows) out
      → IsBest ok at less rows out
  IsBest-sort rows (picked r) b =
      ((Perm.mem_iff (sort_stable-perm less rows)).0 b.0, b.1, sort_stable-All_of less _ rows b.2)
  IsBest-sort rows (unavailable last) b =
      (sort_stable-All_of less _ rows b.0, IsAttained-Perm at last (sort_stable-perm less rows) b.1)

-- What the outcome of a pick says where every element that serves is as good as any other.
abbrev pub IsServed : {A : Type 0} → (A → Bool) → (A → Time) → List A → Picked A → Type 0
IsServed ok at rows (picked r) = Mem r rows × (ok r ≡ true)
IsServed ok at rows (unavailable next) =
    All (λ y. (ok y ≡ false) × ((at y ≡ 0) ⊎ ((next ≢ 0) × (next ≤ at y)))) rows
    × IsAttained at rows next

never {ℓ} : {A : Type ℓ} → A → A → Bool
never x y = false

never-All : {A : Type 0} (x : A) (rs : List A) → All (λ y. never y x ≡ false) rs
unfolding never
never-All x [] = tt
never-All x (r ∷ rs) = (refl, never-All x rs)

never-IsOrdered : {A : Type 0} (rs : List A) → IsOrdered never rs
never-IsOrdered [] = tt
never-IsOrdered (r ∷ rs) = (never-All r rs, never-IsOrdered rs)

pub first_row-IsServed :
    {A : Type 0} (ok : A → Bool) (at : A → Time) (rs : List A) (out : Picked A)
    → first_row ok at 0 rs ≡ out
    → IsServed ok at rs out
unfolding never
first_row-IsServed ok at rs (picked r) h =
    let b = first_row-picked ok at never (λ x. refl) rs 0 r (never-IsOrdered rs) h in (b.0, b.1)
first_row-IsServed ok at rs (unavailable last) h = (
  first_row-none ok at never (λ x. refl) rs 0 last h,
  first_row-attained ok at never (λ x. refl) rs 0 last h,
)
