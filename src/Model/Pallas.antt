-- ===== src/Model/Pallas.antt =====
-- The field `Fp` of `halo2_proofs::pasta` and the hashes over it, as the model uses them.
use ullm.Prelude.{ℕ, ◌<◌, ◌≡◌, List, [], ◌∷◌, ◌++◌, Option, some, length}

-- The Pallas field: `from_repr` reads 32 bytes, the lowest first, as a number, if it is below the
-- order; the order is above 2 to the power 254, so bytes with the top two bits clear are read.
-- Poseidon is one absorption of a vector of 8 elements.
pub record Field : Type 1 where
  pub Fp : Type 0
  pub zero : Fp
  pub add : Fp → Fp → Fp
  pub sub : Fp → Fp → Fp
  pub mul : Fp → Fp → Fp
  pub add_assoc : (x y z : Fp) → add (add x y) z ≡ add x (add y z)
  pub add_comm : (x y : Fp) → add x y ≡ add y x
  pub add_zero : (x : Fp) → add x zero ≡ x
  pub mul_add : (x y z : Fp) → mul x (add y z) ≡ add (mul x y) (mul x z)
  pub add_sub : (x y : Fp) → add x (sub y x) ≡ y
  pub from_repr_vartime : List ℕ → Option Fp
  pub to_repr : Fp → List ℕ
  pub reads :
      (low : List ℕ) (top : ℕ)
      → length low ≡ 31
      → top < 64
      → (x : Fp) × (from_repr_vartime (low ++ (top ∷ [])) ≡ some x)
  pub poseidon : List Fp → Fp
