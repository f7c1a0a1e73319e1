-- ===== src/Core/Bytes.antt =====
-- `to_be_bytes` and `from_be_bytes` of Rust's unsigned integers, at every width.
use ullm.Prelude.{
  ℕ, zero, suc, ◌+◌, ◌*◌, ◌/◌, ◌%◌, ◌^◌, ◌<◌, ◌≡◌, refl, ap, ◌∙◌, List, [], ◌∷◌, reverse, arith,
  length, All, All-reverse, length-reverse,
}
use mathlib.Core.List.{reverse-reverse}
use native.Mathlib.Nat.{pow-suc}

abbrev pub IsByte : ℕ → Type 0
IsByte b = b < 256

-- The digits of a number to base 256, lowest first, and back.
le_bytes : ℕ → ℕ → List ℕ
le_bytes zero n = []
le_bytes (suc w) n = (n % 256) ∷ le_bytes w (n / 256)

from_le_bytes : List ℕ → ℕ
from_le_bytes [] = 0
from_le_bytes (b ∷ bs) = b + 256 * from_le_bytes bs

-- `n.to_be_bytes()` for an integer of `w` bytes
unfoldable pub to_be_bytes : ℕ → ℕ → List ℕ
unfolding le_bytes
to_be_bytes w n = reverse (le_bytes w n)

unfoldable pub from_be_bytes : List ℕ → ℕ
unfolding from_le_bytes
from_be_bytes bs = from_le_bytes (reverse bs)

from_le_bytes-le_bytes : (w n : ℕ) → n < 256 ^ w → from_le_bytes (le_bytes w n) ≡ n
unfolding le_bytes from_le_bytes
from_le_bytes-le_bytes zero n h = omega arith
from_le_bytes-le_bytes (suc w) n h =
    omega (arith, pow-suc 256 w, from_le_bytes-le_bytes w (n / 256) (omega (arith, pow-suc 256 w)))

le_bytes-from_le_bytes :
    (bs : List ℕ) → All IsByte bs → le_bytes (length bs) (from_le_bytes bs) ≡ bs
unfolding le_bytes from_le_bytes
le_bytes-from_le_bytes [] h = refl
le_bytes-from_le_bytes (b ∷ bs) h =
    let low : (b + 256 * from_le_bytes bs) % 256 ≡ b = omega arith in
    let high : (b + 256 * from_le_bytes bs) / 256 ≡ from_le_bytes bs = omega arith in
    rw (low, high, le_bytes-from_le_bytes bs h.1)

length-le_bytes : (w n : ℕ) → length (le_bytes w n) ≡ w
unfolding le_bytes
length-le_bytes zero n = refl
length-le_bytes (suc w) n = ap suc (length-le_bytes w (n / 256))

le_bytes-IsByte : (w n : ℕ) → All IsByte (le_bytes w n)
unfolding le_bytes
le_bytes-IsByte zero n = tt
le_bytes-IsByte (suc w) n = (omega arith, le_bytes-IsByte w (n / 256))

from_le_bytes-lt : (bs : List ℕ) → All IsByte bs → from_le_bytes bs < 256 ^ length bs
unfolding from_le_bytes
from_le_bytes-lt [] h = omega arith
from_le_bytes-lt (b ∷ bs) h = omega (arith, pow-suc 256 (length bs), from_le_bytes-lt bs h.1, h.0)

pub from_be_bytes-to_be_bytes : (w n : ℕ) → n < 256 ^ w → from_be_bytes (to_be_bytes w n) ≡ n
unfolding to_be_bytes from_be_bytes
from_be_bytes-to_be_bytes w n h =
    ap from_le_bytes (reverse-reverse (le_bytes w n)) ∙ from_le_bytes-le_bytes w n h

pub to_be_bytes-from_be_bytes :
    (w : ℕ) (bs : List ℕ) → length bs ≡ w → All IsByte bs → to_be_bytes w (from_be_bytes bs) ≡ bs
unfolding to_be_bytes from_be_bytes
to_be_bytes-from_be_bytes w bs e h =
    let width : w ≡ length (reverse bs) = omega (arith, length-reverse bs) in
    rw width (
      ap reverse (le_bytes-from_le_bytes (reverse bs) (All-reverse IsByte bs h))
      ∙ reverse-reverse bs)

pub length-to_be_bytes : (w n : ℕ) → length (to_be_bytes w n) ≡ w
unfolding to_be_bytes
length-to_be_bytes w n = length-reverse (le_bytes w n) ∙ length-le_bytes w n

pub to_be_bytes-IsByte : (w n : ℕ) → All IsByte (to_be_bytes w n)
unfolding to_be_bytes
to_be_bytes-IsByte w n = All-reverse IsByte (le_bytes w n) (le_bytes-IsByte w n)

pub from_be_bytes-lt :
    (w : ℕ) (bs : List ℕ) → length bs ≡ w → All IsByte bs → from_be_bytes bs < 256 ^ w
unfolding from_be_bytes
from_be_bytes-lt w bs e h =
    let width : w ≡ length (reverse bs) = omega (arith, length-reverse bs) in
    rw width (from_le_bytes-lt (reverse bs) (All-reverse IsByte bs h))
