-- ===== src/Base/Bits/Digit.antt =====
-- The native bit operations, lowest binary digit first.
use Prim.Native.Nat.{ℕ, zero, suc, ◌+◌, ◌*◌, ◌/◌, ◌%◌, ◌≤◌, min, max, bit_and, bit_or}
use Prim.Native.Nat.{digits, bitwise, bit_and-bitwise, bit_or-bitwise}
use mathlib.Core.Path.{◌≡◌, refl}
use native.Mathlib.Omega.{arith}

module _ (last : ℕ → ℕ) (join : ℕ → ℕ → ℕ) where
  -- Two amounts of fuel that both reach the end of the first number agree.
  fuel_irrelevant : (n m x y : ℕ) → x ≤ n → x ≤ m → digits last join n x y ≡ digits last join m x y
  fuel_irrelevant zero zero zero y p q = refl
  fuel_irrelevant zero (suc m) zero y p q = refl
  fuel_irrelevant (suc n) zero zero y p q = refl
  fuel_irrelevant (suc n) (suc m) zero y p q = refl
  fuel_irrelevant zero zero (suc x) y p q = absurd (omega arith)
  fuel_irrelevant zero (suc m) (suc x) y p q = absurd (omega arith)
  fuel_irrelevant (suc n) zero (suc x) y p q = absurd (omega arith)
  fuel_irrelevant (suc n) (suc m) (suc x) y p q =
      rw (fuel_irrelevant n m (suc x / 2) (y / 2) (omega arith) (omega arith))

  first_digit :
      (x y : ℕ)
      → bitwise last join (suc x) y
        ≡ bitwise last join (suc x / 2) (y / 2) * 2 + join (suc x % 2) (y % 2)
  first_digit x y =
      omega (arith, fuel_irrelevant x (suc x / 2) (suc x / 2) (y / 2) (omega arith) (omega arith))

pub and_digit : (x y : ℕ) → bit_and x y ≡ bit_and (x / 2) (y / 2) * 2 + min (x % 2) (y % 2)
and_digit zero y = simp bit_and-bitwise (omega arith)
and_digit (suc x) y = simp bit_and-bitwise (first_digit (λ z. 0) min x y)

pub or_digit : (x y : ℕ) → bit_or x y ≡ bit_or (x / 2) (y / 2) * 2 + max (x % 2) (y % 2)
or_digit zero y = simp bit_or-bitwise (omega arith)
or_digit (suc x) y = simp bit_or-bitwise (first_digit (λ z. z) max x y)
