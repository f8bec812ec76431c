-- ===== src/Scheduler/Cursor/Rotation.antt =====
-- internal/scheduler/scheduler.go: the order in which a pick goes through the keys.
use mathlib.Core.List.{Perm, perm_append_comm}
use native.Mathlib.Nat.{mod-lt, add-mod-mod, mod-add-mod, add-mod_right, mod-eq_of_lt}
use api_gateway.Prelude.{
  ℕ, zero, suc, ◌+◌, ◌-◌, ◌%◌, ◌≡◌, ◌<◌, refl, subst, sym, ap, ◌∙◌, Option, none, some, List, [],
  ◌∷◌, ◌++◌, arith, length, take, drop, take-append-drop, All, All-append, All-append_of,
}
use api_gateway.Scheduler.Cursor.{rotate}

-- A rotation keeps the keys, each as often as it was.
pub rotate-perm {ℓ} : {A : Type ℓ} (n : ℕ) (xs : List A) → Perm (rotate n xs) xs
unfolding rotate
rotate-perm n xs =
    subst (Perm (rotate n xs)) (take-append-drop n xs) (perm_append_comm (drop n xs) (take n xs))

abbrev pub nth {ℓ} : {A : Type ℓ} → ℕ → List A → Option A
nth n [] = none
nth zero (x ∷ xs) = some x
nth (suc n) (x ∷ xs) = nth n xs

drop-append {ℓ} :
    {A : Type ℓ} (n : ℕ) (xs ys : List A) → n < length xs → nth 0 (drop n xs ++ ys) ≡ nth n xs
drop-append zero [] ys h = elim h [ ]
drop-append zero (x ∷ xs) ys h = refl
drop-append (suc n) [] ys h = elim h [ ]
drop-append (suc n) (x ∷ xs) ys h = drop-append n xs ys (omega arith)

-- A rotation by `n` starts with the key at place `n`.
pub rotate_first {ℓ} :
    {A : Type ℓ} (n : ℕ) (xs : List A) → n < length xs → nth 0 (rotate n xs) ≡ nth n xs
unfolding rotate
rotate_first n xs h = drop-append n xs (take n xs) h

-- How many picks after a cursor value `c` the key at place `i` of `size` comes first.
unfoldable pub turns_until : ℕ → ℕ → ℕ → ℕ
turns_until size c i = (i + (size - c % size)) % size

-- In any row of `size` picks by one cursor each key comes first: from whatever value the cursor has, the
-- rotation reaches place `i` after fewer than `size` picks, as long as the uint64 does not wrap.
pub turn_comes :
    (size c i : ℕ)
    → i < size
    → (turns_until size c i < size) × ((c + turns_until size c i) % size ≡ i)
unfolding turns_until
turn_comes size c i h = (
  mod-lt (i + (size - c % size)) (omega arith),
  add-mod-mod c (i + (size - c % size)) size
      ∙ sym (mod-add-mod c size (i + (size - c % size)))
      ∙ ap (λ n. n % size) around
      ∙ add-mod_right i size
      ∙ mod-eq_of_lt h,
)
  where
    around : c % size + (i + (size - c % size)) ≡ i + size
    around = let r = mod-lt c {m = size} (omega arith) in omega arith

pub rotate-All_of {ℓ κ} :
    {A : Type ℓ} (P : A → Type κ) (n : ℕ) (xs : List A) → All P (rotate n xs) → All P xs
unfolding rotate
rotate-All_of P n xs h =
    let r = All-append_of P (drop n xs) (take n xs) h in
    subst (All P) (take-append-drop n xs) (All-append P (take n xs) (drop n xs) r.1 r.0)
