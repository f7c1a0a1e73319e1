-- ===== src/Prelude/Bits.antt =====
-- Laws of `bit_and` and `bit_or` at variables, read off bit by bit. `bit_at m k` is bit `k` of `m`.
mod Step
pub mod Xor
use Step.{bit_and_step, bit_or_step}
use Prim.Native.Nat.{
  ℕ, zero, suc, ◌+◌, ◌-◌, ◌*◌, ◌/◌, ◌%◌, ◌^◌, ◌≤◌, ◌<◌, min, max, bit_and, bit_or,
}
use mathlib.Core.Path.{◌≡◌, refl, sym, ap, ◌∙◌}
use mathlib.Core.Logic.{◌≢◌}
use native.Mathlib.Nat.{pow-suc, mul_comm, mul-one, one-le-pow, div-add-mod, div-div-eq-div-mul}
use native.Mathlib.Omega.{arith}

zero_second : (n m : ℕ) → m ≤ n → (bit_and m 0 ≡ 0) × (bit_or m 0 ≡ m)
zero_second n zero h = (refl, refl)
zero_second zero (suc m) h = absurd (omega arith)
zero_second (suc n) (suc m) h =
    let halves : (bit_and (suc m / 2) 0 ≡ 0) × (bit_or (suc m / 2) 0 ≡ suc m / 2) =
      zero_second n (suc m / 2) (omega arith) in
    (omega (arith, bit_and_step (suc m) 0), omega (arith, bit_or_step (suc m) 0))

bit_and-zero : (m : ℕ) → bit_and m 0 ≡ 0
bit_and-zero m = (zero_second m m (omega arith)).0

bit_or-zero : (m : ℕ) → bit_or m 0 ≡ m
bit_or-zero m = (zero_second m m (omega arith)).1

half_pow : (b : ℕ) → 2 ^ suc b / 2 ≡ 2 ^ b
half_pow b = omega (arith, pow-suc 2 b)

half_mask : (k : ℕ) → (2 ^ suc k - 1) / 2 ≡ 2 ^ k - 1
half_mask k = omega (arith, pow-suc 2 k, one-le-pow k 2)

half_field : (k q : ℕ) → q * 2 ^ suc k / 2 ≡ q * 2 ^ k
half_field k q = omega (arith, ap (λ (t : ℕ). q * t) (pow-suc 2 k))

mod_halves : (k m : ℕ) → m % 2 ^ suc k ≡ m / 2 % 2 ^ k * 2 + m % 2
mod_halves k m = omega (
  arith,
  div-add-mod m (2 ^ suc k),
  div-add-mod (m / 2) (2 ^ k),
  pow-suc 2 k,
  ap (λ t. m / t) (pow-suc 2 k ∙ mul_comm (2 ^ k) 2) ∙ sym (div-div-eq-div-mul m 2 (2 ^ k)),
  ap (λ (t : ℕ). t * (m / 2 / 2 ^ k)) (pow-suc 2 k),
  ap (λ (t : ℕ). 2 ^ suc k * t)
      (ap (λ t. m / t) (pow-suc 2 k ∙ mul_comm (2 ^ k) 2) ∙ sym (div-div-eq-div-mul m 2 (2 ^ k))),
)

unfoldable pub bit_at : ℕ → ℕ → ℕ
bit_at m zero = m % 2
bit_at m (suc k) = bit_at (m / 2) k

pub bit_at-lt : (k m : ℕ) → bit_at m k < 2
unfolding bit_at
bit_at-lt zero m = omega arith
bit_at-lt (suc k) m = bit_at-lt k (m / 2)

pub bit_at-zero : (k : ℕ) → bit_at 0 k ≡ 0
unfolding bit_at
bit_at-zero zero = refl
bit_at-zero (suc k) = bit_at-zero k

pub bit_at-bit_or : (k a b : ℕ) → bit_at (bit_or a b) k ≡ max (bit_at a k) (bit_at b k)
unfolding bit_at
bit_at-bit_or zero a b = omega (arith, bit_or_step a b)
bit_at-bit_or (suc k) a b = rw (half_or a b) (bit_at-bit_or k (a / 2) (b / 2))
  where
    half_or : (a b : ℕ) → bit_or a b / 2 ≡ bit_or (a / 2) (b / 2)
    half_or a b = omega (arith, bit_or_step a b)

pub bit_at-bit_and : (k a b : ℕ) → bit_at (bit_and a b) k ≡ min (bit_at a k) (bit_at b k)
unfolding bit_at
bit_at-bit_and zero a b = omega (arith, bit_and_step a b)
bit_at-bit_and (suc k) a b = rw (half_and a b) (bit_at-bit_and k (a / 2) (b / 2))
  where
    half_and : (a b : ℕ) → bit_and a b / 2 ≡ bit_and (a / 2) (b / 2)
    half_and a b = omega (arith, bit_and_step a b)

-- A shift to the right renumbers the bits.
pub bit_at-shr : (g m k j : ℕ) → j ≡ g + k → bit_at (m / 2 ^ g) k ≡ bit_at m j
unfolding bit_at
bit_at-shr zero m k j e =
    let same : j ≡ k = omega arith in rw same (ap (λ n. bit_at n k) (omega arith))
bit_at-shr (suc g) m k zero e = absurd (omega arith)
bit_at-shr (suc g) m k (suc j) e =
    ap (λ n. bit_at n k) (halve_first g m) ∙ bit_at-shr g (m / 2) k j (omega arith)
  where
    halve_first : (g m : ℕ) → m / 2 ^ suc g ≡ m / 2 / 2 ^ g
    halve_first g m =
        ap (λ t. m / t) (pow-suc 2 g ∙ mul_comm (2 ^ g) 2) ∙ sym (div-div-eq-div-mul m 2 (2 ^ g))

pub bit_at-pow_self : (b : ℕ) → bit_at (2 ^ b) b ≡ 1
unfolding bit_at
bit_at-pow_self zero = refl
bit_at-pow_self (suc b) = rw (half_pow b) (bit_at-pow_self b)

pub bit_at-pow_ne : (b k : ℕ) → b ≢ k → bit_at (2 ^ b) k ≡ 0
unfolding bit_at
bit_at-pow_ne zero zero h = absurd (h refl)
bit_at-pow_ne zero (suc k) h = bit_at-zero k
bit_at-pow_ne (suc b) zero h = omega (arith, pow-suc 2 b)
bit_at-pow_ne (suc b) (suc k) h = rw (half_pow b) (bit_at-pow_ne b k (λ e. h (ap suc e)))

-- No bit of a number below `2 ^ w` stands at `w` or above.
pub bit_at_above : (w k m : ℕ) → m < 2 ^ w → w ≤ k → bit_at m k ≡ 0
unfolding bit_at
bit_at_above zero k m h le = let none_left : m ≡ 0 = omega arith in rw none_left (bit_at-zero k)
bit_at_above (suc w) zero m h le = absurd (omega arith)
bit_at_above (suc w) (suc k) m h le =
    bit_at_above w k (m / 2) (omega (arith, pow-suc 2 w)) (omega arith)

pub bit_and-pow : (b m : ℕ) → bit_and m (2 ^ b) ≡ bit_at m b * 2 ^ b
unfolding bit_at
bit_and-pow zero m = omega (arith, bit_and_step m 1, bit_and-zero (m / 2))
bit_and-pow (suc b) m = omega (
  arith,
  bit_and_step m (2 ^ suc b),
  pow-suc 2 b,
  ap (bit_and (m / 2)) (half_pow b),
  bit_and-pow b (m / 2),
  ap (λ t. bit_at (m / 2) b * t) (pow-suc 2 b),
)

pub bit_or-lt : (w a b : ℕ) → a < 2 ^ w → b < 2 ^ w → bit_or a b < 2 ^ w
bit_or-lt zero a b ha hb =
    let a0 : a ≡ 0 = omega arith in let b0 : b ≡ 0 = omega arith in rw (a0, b0) (omega arith)
bit_or-lt (suc w) a b ha hb = omega (
  arith,
  pow-suc 2 w,
  bit_or_step a b,
  bit_or-lt w (a / 2) (b / 2) (omega (arith, pow-suc 2 w)) (omega (arith, pow-suc 2 w)),
)

-- A mask of the `k` low bits is the remainder by `2 ^ k`.
pub bit_and-low_mask : (k m : ℕ) → bit_and m (2 ^ k - 1) ≡ m % 2 ^ k
bit_and-low_mask zero m = rw (bit_and-zero m) (omega arith)
bit_and-low_mask (suc k) m = omega (
  arith,
  bit_and_step m (2 ^ suc k - 1),
  ap (bit_and (m / 2)) (half_mask k),
  bit_and-low_mask k (m / 2),
  pow-suc 2 k,
  one-le-pow k 2,
  mod_halves k m,
)

-- Disjoint fields are joined by a sum.
pub bit_or_fields : (k q r : ℕ) → r < 2 ^ k → bit_or (q * 2 ^ k) r ≡ q * 2 ^ k + r
bit_or_fields zero q r h =
    let r0 : r ≡ 0 = omega arith in
    rw r0 (ap (λ t. bit_or t 0) (mul-one q) ∙ bit_or-zero q ∙ omega arith)
bit_or_fields (suc k) q r h = omega (
  arith,
  bit_or_step (q * 2 ^ suc k) r,
  ap (λ (t : ℕ). q * t) (pow-suc 2 k),
  ap (λ t. bit_or t (r / 2)) (half_field k q),
  bit_or_fields k q (r / 2) (omega (arith, pow-suc 2 k)),
)
