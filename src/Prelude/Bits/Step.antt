-- ===== src/Prelude/Bits/Step.antt =====
-- One equation for the lowest digit of `bit_and` and `bit_or`: the digit recursion with its fuel
-- gone.
use Prim.Native.Nat.{
  ℕ, zero, suc, ◌+◌, ◌*◌, ◌/◌, ◌%◌, ◌≤◌, min, max, bit_and, bit_or, digits, bit_and-bitwise,
  bit_or-bitwise,
}
use mathlib.Core.Path.{◌≡◌, refl}
use native.Mathlib.Omega.{arith}

module _ (base : ℕ → ℕ) (op : ℕ → ℕ → ℕ) where
  same_digits :
      (fuel more x y : ℕ) → x ≤ fuel → x ≤ more → digits base op fuel x y ≡ digits base op more x y
  same_digits (suc fuel) (suc more) (suc x) y p q =
      rw (same_digits fuel more (suc x / 2) (y / 2) (omega arith) (omega arith))
  same_digits zero more (suc x) y p q = absurd (omega arith)
  same_digits fuel zero (suc x) y p q = absurd (omega arith)
  same_digits zero zero zero y p q = refl
  same_digits zero (suc more) zero y p q = refl
  same_digits (suc fuel) zero zero y p q = refl
  same_digits (suc fuel) (suc more) zero y p q = refl

  pub lowest_digit :
      (x y : ℕ)
      → digits base op (suc x) (suc x) y
        ≡ digits base op (suc x / 2) (suc x / 2) (y / 2) * 2 + op (suc x % 2) (y % 2)
  lowest_digit x y = rw (same_digits x (suc x / 2) (suc x / 2) (y / 2) (omega arith) (omega arith))

pub bit_and_step : (x y : ℕ) → bit_and x y ≡ bit_and (x / 2) (y / 2) * 2 + min (x % 2) (y % 2)
bit_and_step zero y = simp bit_and-bitwise (omega arith)
bit_and_step (suc x) y = simp bit_and-bitwise (lowest_digit (λ y. 0) min x y)

pub bit_or_step : (x y : ℕ) → bit_or x y ≡ bit_or (x / 2) (y / 2) * 2 + max (x % 2) (y % 2)
bit_or_step zero y = simp bit_or-bitwise (omega arith)
bit_or_step (suc x) y = simp bit_or-bitwise (lowest_digit (λ y. y) max x y)
