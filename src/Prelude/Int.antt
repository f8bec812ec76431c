-- ===== src/Prelude/Int.antt =====
-- Signed integers over the native numbers: Go's int64 values, with the wrap-around written out.
use Prim.Native.Nat.{ℕ, suc, ◌+◌, ◌-◌, ◌*◌, ◌%◌, ◌^◌}
use mathlib.Core.Path.{◌≡◌}
use mathlib.Core.Logic.{◌↔◌}
use mathlib.Core.Bool.{Bool, true, false}
use native.Mathlib.Omega.{arith}
use api_gateway.Prelude.Tests.{ltb, ◌==◌, if◌then◌else◌, Eq}

-- `negsuc n` is -(n + 1).
pub data ℤ : Type 0 where
  pos : ℕ → ℤ
  negsuc : ℕ → ℤ

abbrev pub pos_part : ℤ → ℕ
pos_part (pos n) = n
pos_part (negsuc n) = 0

abbrev pub neg_part : ℤ → ℕ
neg_part (pos n) = 0
neg_part (negsuc n) = suc n

abbrev pub ltb_ℤ : ℤ → ℤ → Bool
ltb_ℤ a b = ltb (pos_part a + neg_part b) (pos_part b + neg_part a)

abbrev pub eq_ℤ : ℤ → ℤ → Bool
eq_ℤ (pos a) (pos b) = a == b
eq_ℤ (negsuc a) (negsuc b) = a == b
eq_ℤ _ _ = false

pub eq_ℤ_iff : (a b : ℤ) → (eq_ℤ a b ≡ true) ↔ (a ≡ b)
eq_ℤ_iff a b = ground arith

instance abbrev pub int_eq : Eq ℤ
int_eq = record { beq = eq_ℤ; beq_iff = eq_ℤ_iff }

abbrev pub is_positive : ℤ → Bool
is_positive d = ltb_ℤ (pos 0) d

abbrev pub word : ℕ
word = 18446744073709551616

-- The two's complement bit pattern of an int64, and the int64 of a bit pattern.
abbrev pub to_bits : ℤ → ℕ
to_bits (pos n) = n % word
to_bits (negsuc n) = word - 1 - n % word

abbrev pub of_bits : ℕ → ℤ
of_bits n =
    if ltb (n % word) 9223372036854775808 then pos (n % word) else negsuc (word - 1 - n % word)

-- `d << k` on an int64.
abbrev pub shift_left : ℤ → ℕ → ℤ
shift_left d k = of_bits (to_bits d * 2 ^ k)
