-- ===== src/Prelude/Bits/Xor.antt =====
-- `bit_xor` digit by digit, and that it undoes itself.
use Prim.Native.Nat.{
  ℕ, zero, suc, ◌+◌, ◌*◌, ◌/◌, ◌%◌, ◌≤◌, ◌^◌, ◌<◌, bit_xor, differ, bit_xor-bitwise,
}
use mathlib.Core.Path.{◌≡◌, refl, ap, ◌∙◌}
use native.Mathlib.Omega.{arith}
use native.Mathlib.Nat.{pow-suc}
use ullm.Prelude.Bits.Step.{lowest_digit}

bit_xor_zero : (y : ℕ) → bit_xor 0 y ≡ y
bit_xor_zero y = simp bit_xor-bitwise refl

differ_digits : (a b : ℕ) → a < 2 → b < 2 → differ a b ≡ (a + b) % 2
differ_digits zero b h h' = omega (arith, h')
differ_digits (suc zero) zero h h' = refl
differ_digits (suc zero) (suc zero) h h' = refl
differ_digits (suc zero) (suc (suc b)) h h' = absurd (omega (arith, h'))
differ_digits (suc (suc a)) b h h' = absurd (omega (arith, h))

pub bit_xor_step : (x y : ℕ) → bit_xor x y ≡ bit_xor (x / 2) (y / 2) * 2 + (x % 2 + y % 2) % 2
bit_xor_step zero y = omega (arith, bit_xor_zero y, bit_xor_zero (y / 2))
bit_xor_step (suc x) y =
    let digit = differ_digits (suc x % 2) (y % 2) (omega arith) (omega arith) in
    simp bit_xor-bitwise (omega (arith, lowest_digit (λ y. y) differ x y, digit))

cancel_below : (n x y : ℕ) → x ≤ n → bit_xor x (bit_xor x y) ≡ y
cancel_below n zero y h = rw (bit_xor_zero y) (bit_xor_zero y)
cancel_below zero (suc x) y h = absurd (omega (arith, h))
cancel_below (suc n) (suc x) y h =
    let outer = bit_xor_step (suc x) (bit_xor (suc x) y) in
    let inner = bit_xor_step (suc x) y in
    let half : bit_xor (suc x) y / 2 ≡ bit_xor (suc x / 2) (y / 2) = omega (arith, inner) in
    let rest = cancel_below n (suc x / 2) (y / 2) (omega (arith, h)) in
    let same : bit_xor (suc x / 2) (bit_xor (suc x) y / 2) ≡ y / 2 =
      ap (bit_xor (suc x / 2)) half ∙ rest in
    omega (arith, outer, inner, same)

-- A mask laid over a number twice gives the number back, from either side.
pub bit_xor_cancel : (x y : ℕ) → bit_xor x (bit_xor x y) ≡ y
bit_xor_cancel x y = cancel_below x x y (omega arith)

comm_below : (n x y : ℕ) → x + y ≤ n → bit_xor x y ≡ bit_xor y x
comm_below zero zero zero h = refl
comm_below zero (suc x) y h = absurd (omega (arith, h))
comm_below zero zero (suc y) h = absurd (omega (arith, h))
comm_below (suc n) zero zero h = refl
comm_below (suc n) (suc x) y h = omega (
  arith,
  bit_xor_step (suc x) y,
  bit_xor_step y (suc x),
  comm_below n (suc x / 2) (y / 2) (omega (arith, h)),
)
comm_below (suc n) zero (suc y) h = omega (
  arith,
  bit_xor_step zero (suc y),
  bit_xor_step (suc y) zero,
  comm_below n 0 (suc y / 2) (omega (arith, h)),
)

pub bit_xor_comm : (x y : ℕ) → bit_xor x y ≡ bit_xor y x
bit_xor_comm x y = comm_below (x + y) x y (omega arith)

pub bit_xor-lt : (w x y : ℕ) → x < 2 ^ w → y < 2 ^ w → bit_xor x y < 2 ^ w
bit_xor-lt zero x y h h' =
    let none_left : x ≡ 0 = omega (arith, h) in rw none_left (omega (arith, bit_xor_zero y, h'))
bit_xor-lt (suc w) x y h h' = omega (
  arith,
  pow-suc 2 w,
  bit_xor_step x y,
  bit_xor-lt w (x / 2) (y / 2) (omega (arith, h, pow-suc 2 w)) (omega (arith, h', pow-suc 2 w)),
)
