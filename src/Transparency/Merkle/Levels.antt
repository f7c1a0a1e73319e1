-- ===== src/Transparency/Merkle/Levels.antt =====
-- A level of the tree has half the hashes of the one below it, so the climb reaches a root.
use ullm.Prelude.{ℕ, zero, suc, ◌+◌, ◌/◌, ◌≤◌, ◌≡◌, refl, List, [], ◌∷◌, some, length, arith}
use ullm.Transparency.Entry.{Crates}
use ullm.Transparency.Merkle.{node_hash, next_level, climb}

module _ (crates : Crates) where
  pub length-next_level :
      (level : List (List ℕ)) → length (next_level crates level) ≡ (length level + 1) / 2
  unfolding next_level
  length-next_level [] = omega arith
  length-next_level (l ∷ []) = omega arith
  length-next_level (l ∷ r ∷ level) = omega (arith, length-next_level level)

  -- Fuel for one round to each hash is enough.
  pub climb-total :
      (fuel : ℕ) (x : List ℕ) (level : List (List ℕ))
      → length (x ∷ level) ≤ fuel
      → (root : List ℕ) × (climb crates fuel (x ∷ level) ≡ some root)
  unfolding climb next_level
  climb-total zero x level h = absurd (omega arith)
  climb-total (suc fuel) x [] h = (x, refl)
  climb-total (suc fuel) x (y ∷ level) h =
      climb-total fuel (node_hash crates x y) (next_level crates level)
        (omega (arith, length-next_level level))
