-- ===== src/Lru/Below.antt =====
-- The rows below a bound are rows of the set.
use ullm.Prelude.{◌≡◌, ◌↔◌, Bool, true, List}
use mathlib.Core.List.{Mem, Nodup, mem-filter, filter-sublist}
use mathlib.Core.List.Nodup
use ullm.Lru.{Row, Bool-discrete, row_lt, rows_below}

module _ {ℓ} {K : Type ℓ} (dec : Discrete K) (key_lt : K → K → Bool) (bound : Row K) where
  pub mem-rows_below :
      (r : Row K) (l : List (Row K))
      → Mem r (rows_below dec key_lt bound l) ↔ (Mem r l × (row_lt key_lt r bound ≡ true))
  unfolding rows_below
  mem-rows_below r l = mem-filter (λ r. Bool-discrete (row_lt key_lt r bound) true)

  pub rows_below-Nodup : (l : List (Row K)) → Nodup l → Nodup (rows_below dec key_lt bound l)
  unfolding rows_below
  rows_below-Nodup l d =
      Nodup.sublist (filter-sublist (λ r. Bool-discrete (row_lt key_lt r bound) true)) d
