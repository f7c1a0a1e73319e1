-- ===== src/Core/Postcard.antt =====
-- The crate `postcard`, which the messages, the onion layers and the receipts are written with.
use ullm.Prelude.{ℕ, ◌≡◌, List, Option, some}

-- `postcard::to_allocvec` and `postcard::from_bytes` at a type with the given values: every value
-- is written, and read back.
pub record Postcard (T : Type 0) (IsValue : T → Type 0) : Type 0 where
  pub to_allocvec : T → Option (List ℕ)
  pub from_bytes : List ℕ → Option T
  pub round_trip :
      (v : T) → IsValue v → (b : List ℕ) × (to_allocvec v ≡ some b) × (from_bytes b ≡ some v)
