-- ===== src/Wire/Replay/Spec.antt =====
-- What the anti-replay window of crates/ullm-wire/src/replay.rs promises, as a receiver that
-- remembers every number it has accepted, and the relation of a window to such a history.
use ullm.Prelude.{
  ℕ, ◌+◌, ◌-◌, ◌/◌, ◌^◌, ◌≤◌, ◌<◌, ◌≡◌, ◌≢◌, refl, Bool, true, false, ◌||◌, ◌==◌, ltb, leb,
  if◌then◌else◌, List, [], ◌∷◌, arith,
}
use Prim.Native.Nat.{max}
use ullm.Prelude.Bits.{bit_at}
use ullm.Core.{Error, Result, ok, err, is_ok}
use ullm.Wire.Replay.{ReplayWindow}

abbrev pub contains : ℕ → List ℕ → Bool
contains s [] = false
contains s (x ∷ xs) = s == x || contains s xs

abbrev pub highest : List ℕ → ℕ
highest [] = 0
highest (x ∷ xs) = max x (highest xs)

-- A number is fresh if it was never accepted, is among the last 64 up to the highest one accepted,
-- and is not more than half the range of 64 bits above it.
unfoldable pub judge : List ℕ → ℕ → Result (Unit {0})
judge h s =
    if ltb (highest h) s
    then (if ltb ((2 ^ 64 - 1) / 2) (s - highest h)
        then err (Error.seq_gap (s - highest h))
        else ok tt)
    else if leb 64 (highest h - s)
    then err (Error.seq_gap (highest h - s))
    else if contains s h
    then err (Error.replay s)
    else ok tt

abbrev pub remember : List ℕ → ℕ → List ℕ
remember h s = if is_ok (judge h s) then s ∷ h else h

unfoldable pub judge_all : List ℕ → List ℕ → List ℕ × List (Result (Unit {0}))
judge_all h [] = (h, [])
judge_all h (s ∷ rest) = let (h', rs) = judge_all (remember h s) rest in (h', judge h s ∷ rs)

abbrev pub indicator : Bool → ℕ
indicator true = 1
indicator false = 0

-- Bit 63 stands for the highest number, bit 62 for the one below it, and so on.
pub record Tracks (w : ReplayWindow) (h : List ℕ) : Type 0 where
  pub top : w.high ≡ highest h
  pub word : w.bitmap < 2 ^ 64
  pub bits :
      (q : ℕ)
      → q ≤ w.high
      → w.high < q + 64
      → bit_at w.bitmap (63 - (w.high - q)) ≡ indicator (contains q h)
  pub first : w.high ≡ 0 → w.seen_zero_at_init ≡ contains 0 h

pub le-highest : (q : ℕ) (h : List ℕ) → contains q h ≡ true → q ≤ highest h
le-highest q [] e = cc
le-highest q (x ∷ xs) e = ground (arith, le-highest q xs)

-- What lies above the highest number was not accepted.
pub not_contains_above : (q : ℕ) (h : List ℕ) → highest h < q → contains q h ≡ false
not_contains_above q [] a = refl
not_contains_above q (x ∷ xs) a = ground (arith, not_contains_above q xs)

pub contains_self : (s : ℕ) (h : List ℕ) → contains s (s ∷ h) ≡ true
contains_self s h = ground arith

pub contains_ne : (q s : ℕ) (h : List ℕ) → q ≢ s → contains q (s ∷ h) ≡ contains q h
contains_ne q s h other = ground arith
