-- ===== src/Wire/Replay.antt =====
-- crates/ullm-wire/src/replay.rs: the 64-slot sliding window against replays. Words are 64 bits.
pub mod Spec
pub mod Refine
pub mod Once
use ullm.Prelude.{
  ℕ, ◌+◌, ◌-◌, ◌/◌, ◌^◌, ◌≤◌, Bool, true, false, not, ◌&&◌, bit_and, bit_or, ◌==◌, ltb, leb,
  if◌then◌else◌, List, [], ◌∷◌,
}
use ullm.Core.{Error, Result, ok, err, panic}

abbrev pub window_bits : ℕ
window_bits = 64

pub record ReplayWindow : Type 0 where
  pub high : ℕ
  pub bitmap : ℕ
  pub seen_zero_at_init : Bool

unfoldable pub new : ReplayWindow
new = record { high = 0; bitmap = 0; seen_zero_at_init = false }

-- The branch `s > self.high`: slide the bitmap down by the gap and mark the new top.
unfoldable pub advance : ReplayWindow → ℕ → ReplayWindow × Result (Unit {0})
advance w s =
    let gap = s - w.high in
    if ltb ((2 ^ 64 - 1) / 2) gap
    then (w, err (Error.seq_gap gap))
    else let slid = if leb window_bits gap then 0 else w.bitmap / 2 ^ gap in
      (record w { high = s; bitmap = bit_or slid (2 ^ (window_bits - 1)) }, ok tt)

-- The branch `s <= self.high` below the special case of the first `seq = 0`.
unfoldable pub look_back : ReplayWindow → ℕ → ReplayWindow × Result (Unit {0})
look_back w s =
    let diff = w.high - s in
    if leb window_bits diff
    then (w, err (Error.seq_gap diff))
    else let mask = 2 ^ (window_bits - 1 - diff) in
      if not (bit_and w.bitmap mask == 0)
      then (w, err (Error.replay s))
      else (record w { bitmap = bit_or w.bitmap mask }, ok tt)

unfoldable pub first_zero : ReplayWindow → ReplayWindow × Result (Unit {0})
first_zero w = if w.seen_zero_at_init then (w, err (Error.replay 0)) else (
  record w { seen_zero_at_init = true; bitmap = bit_or w.bitmap (2 ^ (window_bits - 1)) },
  ok tt,
)

unfoldable pub check_and_update : ReplayWindow → ℕ → ReplayWindow × Result (Unit {0})
unfolding advance look_back first_zero
check_and_update w s =
    if ltb w.high s
    then advance w s
    else if s == 0 && w.high == 0
    then first_zero w
    else look_back w s

-- A receiver's sequence of calls, with their results.
unfoldable pub run : ReplayWindow → List ℕ → ReplayWindow × List (Result (Unit {0}))
run w [] = (w, [])
run w (s ∷ rest) =
    let (w', r) = check_and_update w s in let (w'', rs) = run w' rest in (w'', r ∷ rs)
