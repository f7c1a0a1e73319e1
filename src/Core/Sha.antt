-- ===== src/Core/Sha.antt =====
-- The hashes of the crate `sha2`.
use ullm.Prelude.{ℕ, ◌≡◌, List, length}

pub record Sha : Type 0 where
  pub sha256 : List ℕ → List ℕ
  pub sha512 : List ℕ → List ℕ
  pub length-sha256 : (m : List ℕ) → length (sha256 m) ≡ 32
  pub length-sha512 : (m : List ℕ) → length (sha512 m) ≡ 64
