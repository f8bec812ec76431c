-- ===== src/Gateway/Rounds.antt =====
-- internal/gateway/gateway.go: the lists that the rounds of tryKeyForRAPI filter and count.
use mathlib.Core.List.{
  Mem, Mem-prop, Nodup, Nodup-cons, Subset, mem-cons_self, mem-cons_of_mem, map-subset,
  mem-map_of_mem, eq-or-mem_of_mem-cons, not-mem-nil,
}
use mathlib.Core.Logic.Or
use api_gateway.Prelude.{
  ◌⊎◌, ◌≡◌, ◌≤◌, refl, sym, subst, ap, ◌∙◌, map, Bool, true, false, List, [], ◌∷◌, arith, eq_ℤ_iff,
  Bool-cases, inl, inr, ltb, length, keep_if,
}
use api_gateway.Clock.{Time}
use api_gateway.Entity.{PlatformKey}
use api_gateway.Scheduler.Scanning.{Picked, picked, unavailable}
use api_gateway.Scheduler.Keys.Shrink.{Apart}

module _ {ℓ} {A : Type ℓ} where
  pub keep_if-subset : (p : A → Bool) (xs : List A) → Subset (keep_if p xs) xs
  keep_if-subset p [] a m = m
  keep_if-subset p (x ∷ xs) a m = elim (Bool-cases (p x)) [
    | inl e ↦
        Or.elim Mem-prop (eq-or-mem_of_mem-cons (subst (λ l. Mem a l) (rw e refl) m))
          (λ q. subst (λ y. Mem y (x ∷ xs)) (sym q) mem-cons_self)
          (λ i. mem-cons_of_mem x (keep_if-subset p xs a i))
    | inr e ↦ mem-cons_of_mem x (keep_if-subset p xs a (subst (λ l. Mem a l) (rw e refl) m))
  ]

  pub count_le :
      (p q : A → Bool) (xs : List A)
      → ((x : A) → Mem x xs → q x ≡ true → p x ≡ true)
      → length (keep_if q xs) ≤ length (keep_if p xs)
  count_le p q [] h = omega arith
  count_le p q (x ∷ xs) h =
      ground (arith, h x mem-cons_self, count_le p q xs (λ y m. h y (mem-cons_of_mem x m)))

  -- A test that says yes less often, and no to some member to which the other says yes, has fewer members.
  pub count_less :
      (p q : A → Bool) (xs : List A)
      → ((x : A) → Mem x xs → q x ≡ true → p x ≡ true)
      → (k : A) → Mem k xs
      → p k ≡ true
      → q k ≡ false
      → ltb (length (keep_if q xs)) (length (keep_if p xs)) ≡ true
  count_less p q [] h k m a b = absurd (not-mem-nil m)
  count_less p q (x ∷ xs) h k m a b =
      Or.elim (hlevel) (eq-or-mem_of_mem-cons m)
        (λ e.
          ground (arith, a, b, ap p e, ap q e, count_le p q xs (λ y i. h y (mem-cons_of_mem x i))))
        (λ i.
          ground (
            arith,
            h x mem-cons_self,
            count_less p q xs (λ y j. h y (mem-cons_of_mem x j)) k i a b,
          ))

  pub keep_if-Nodup {κ} :
      {B : Type κ} (f : A → B) (p : A → Bool) (xs : List A)
      → Nodup (map f xs)
      → Nodup (map f (keep_if p xs))
  keep_if-Nodup f p [] n = n
  keep_if-Nodup f p (x ∷ xs) n =
      let c = Nodup-cons.0 n in
      let rest = keep_if-Nodup f p xs c.1 in
      elim (Bool-cases (p x)) [
        | inl e ↦
            rw e (Nodup-cons.1 ((λ m. c.0 (map-subset f (keep_if-subset p xs) (f x) m)), rest))
        | inr e ↦ rw e rest
      ]

-- Two rows of a list without two ids alike are one row, or have different ids.
pub same_id :
    (ks : List PlatformKey) → Nodup (map (λ k. k.id) ks) → (j : PlatformKey) → Mem j ks → Apart j ks
same_id [] n j i k m e = absurd (not-mem-nil m)
same_id (x ∷ xs) n j i k m e =
    let c = Nodup-cons.0 n in
    let alike : k.id ≡ j.id = (eq_ℤ_iff k.id j.id).0 e in
    Or.elim (hlevel) (eq-or-mem_of_mem-cons m)
      (λ a.
        Or.elim (hlevel) (eq-or-mem_of_mem-cons i) (λ b. ∣ a ∙ sym b ∣₁)
          (λ b. absurd (
            c.0 (
              subst (λ d. Mem d (map (λ k. k.id) xs)) (sym alike ∙ ap (λ k. k.id) a)
                (mem-map_of_mem (λ k. k.id) b)))))
      (λ a.
        Or.elim (hlevel) (eq-or-mem_of_mem-cons i)
          (λ b. absurd (
            c.0 (
              subst (λ d. Mem d (map (λ k. k.id) xs)) (alike ∙ ap (λ k. k.id) b)
                (mem-map_of_mem (λ k. k.id) a))))
          (λ b. same_id xs c.1 j b k a e))

pub count_keep_if {ℓ} :
    {A : Type ℓ} (p q : A → Bool) (xs : List A)
    → length (keep_if q (keep_if p xs)) ≤ length (keep_if q xs)
count_keep_if p q [] = omega arith
count_keep_if p q (x ∷ xs) = ground (arith, count_keep_if p q xs)

pub mem-keep_if {ℓ} :
    {A : Type ℓ} (p : A → Bool) (xs : List A) (k : A) → Mem k (keep_if p xs) → p k ≡ true
mem-keep_if p [] k m = absurd (not-mem-nil m)
mem-keep_if p (x ∷ xs) k m = elim (Bool-cases (p x)) [
  | inl e ↦
      Or.elim (hlevel) (eq-or-mem_of_mem-cons (subst (λ l. Mem k l) (rw (e) refl) m))
        (λ q. ap p q ∙ e) (λ i. mem-keep_if p xs k i)
  | inr e ↦ mem-keep_if p xs k (subst (λ l. Mem k l) (rw (e) refl) m)
]

pub List-cases {ℓ} :
    {A : Type ℓ} (xs : List A) → (xs ≡ []) ⊎ ((x : A) × (ys : List A) × (xs ≡ x ∷ ys))
List-cases [] = inl refl
List-cases (x ∷ ys) = inr (x, ys, refl)

pub Picked-cases {ℓ} :
    {A : Type ℓ} (p : Picked A) → ((at : Time) × (p ≡ unavailable at)) ⊎ ((a : A) × (p ≡ picked a))
Picked-cases (unavailable at) = inl (at, refl)
Picked-cases (picked a) = inr (a, refl)
