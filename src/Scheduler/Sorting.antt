-- ===== src/Scheduler/Sorting.antt =====
-- sort.SliceStable: a stable sort by a Boolean test, as the scheduler uses it.
use api_gateway.Prelude.{
  ◌≡◌, Bool, true, false, List, [], ◌∷◌, if◌then◌else◌, All, inl, inr, Bool-cases,
}
use mathlib.Core.List.{Perm}
use mathlib.Core.List.Perm

module _ {ℓ} {A : Type ℓ} (less : A → A → Bool) where
  -- `x` stood before the elements of the list, so it goes before those that are not less than it.
  unfoldable pub insert_stable : A → List A → List A
  insert_stable x [] = x ∷ []
  insert_stable x (y ∷ ys) = if less y x then y ∷ insert_stable x ys else x ∷ y ∷ ys

  unfoldable pub sort_stable : List A → List A
  unfolding insert_stable
  sort_stable [] = []
  sort_stable (x ∷ xs) = insert_stable x (sort_stable xs)

  insert_stable-perm : (x : A) (ys : List A) → Perm (insert_stable x ys) (x ∷ ys)
  unfolding insert_stable
  insert_stable-perm x [] = Perm.refl _
  insert_stable-perm x (y ∷ ys) = elim (Bool-cases (less y x)) [
    | inl e ↦ rw e (Perm.trans (Perm.cons y (insert_stable-perm x ys)) (Perm.swap x y ys))
    | inr e ↦ rw e (Perm.refl _)
  ]

  pub sort_stable-perm : (xs : List A) → Perm (sort_stable xs) xs
  unfolding sort_stable
  sort_stable-perm [] = Perm.refl _
  sort_stable-perm (x ∷ xs) =
      Perm.trans (insert_stable-perm x (sort_stable xs)) (Perm.cons x (sort_stable-perm xs))

  insert_stable-All {κ} :
      (P : A → Type κ) (x : A) (ys : List A) → P x → All P ys → All P (insert_stable x ys)
  unfolding insert_stable
  insert_stable-All P x [] px h = (px, tt)
  insert_stable-All P x (y ∷ ys) px h = elim (Bool-cases (less y x)) [
    | inl e ↦ rw e (h.0, insert_stable-All P x ys px h.1)
    | inr e ↦ rw e (px, h)
  ]

  pub sort_stable-All {κ} : (P : A → Type κ) (xs : List A) → All P xs → All P (sort_stable xs)
  unfolding sort_stable
  sort_stable-All P [] h = tt
  sort_stable-All P (x ∷ xs) h = insert_stable-All P x _ h.0 (sort_stable-All P xs h.1)

module _ {ℓ κ} {A : Type ℓ} (less : A → A → Bool) (P : A → Type κ) where
  insert_stable-All_of : (x : A) (ys : List A) → All P (insert_stable less x ys) → P x × All P ys
  unfolding insert_stable
  insert_stable-All_of x [] h = (h.0, tt)
  insert_stable-All_of x (y ∷ ys) h = elim (Bool-cases (less y x)) [
    | inl e ↦
        let g = rw e at h in let rest = insert_stable-All_of x ys g.1 in (rest.0, (g.0, rest.1))
    | inr e ↦ let g = rw e at h in (g.0, g.1)
  ]

  -- What holds of all elements after the sort held of them before.
  pub sort_stable-All_of : (xs : List A) → All P (sort_stable less xs) → All P xs
  unfolding sort_stable
  sort_stable-All_of [] h = tt
  sort_stable-All_of (x ∷ xs) h =
      let s = insert_stable-All_of x (sort_stable less xs) h in (s.0, sort_stable-All_of xs s.1)

-- No element is less than one that stands before it.
abbrev pub IsOrdered {ℓ} : {A : Type ℓ} → (A → A → Bool) → List A → Type 0
IsOrdered less [] = Unit
IsOrdered less (x ∷ xs) = All (λ y. less y x ≡ false) xs × IsOrdered less xs

module _ {ℓ} {A : Type ℓ} (less : A → A → Bool)
    (asym : (x y : A) → less x y ≡ true → less y x ≡ false)
    (trans : (x y z : A) → less y x ≡ false → less z y ≡ false → less z x ≡ false) where
  All-trans :
      (x y : A) (zs : List A)
      → less y x ≡ false
      → All (λ z. less z y ≡ false) zs
      → All (λ z. less z x ≡ false) zs
  All-trans x y [] h a = tt
  All-trans x y (z ∷ zs) h a = (trans x y z h a.0, All-trans x y zs h a.1)

  insert_stable-IsOrdered :
      (x : A) (ys : List A) → IsOrdered less ys → IsOrdered less (insert_stable less x ys)
  unfolding insert_stable
  insert_stable-IsOrdered x [] s = (tt, tt)
  insert_stable-IsOrdered x (y ∷ ys) s = elim (Bool-cases (less y x)) [
    | inl e ↦ rw e (
      insert_stable-All less (λ z. less z y ≡ false) x ys (asym y x e) s.0,
      insert_stable-IsOrdered x ys s.1,
    )
    | inr e ↦ rw e ((e, All-trans x y ys e s.0), s)
  ]

  pub sort_stable-IsOrdered : (xs : List A) → IsOrdered less (sort_stable less xs)
  unfolding sort_stable
  sort_stable-IsOrdered [] = tt
  sort_stable-IsOrdered (x ∷ xs) =
      insert_stable-IsOrdered x (sort_stable less xs) (sort_stable-IsOrdered xs)
