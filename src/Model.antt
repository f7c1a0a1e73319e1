-- ===== src/Model.antt =====
-- crates/ullm-model/src: the deterministic model of eight layers, its derivation from a seed, and the
-- commitments to a run.
pub mod Pallas
pub mod Seed
pub mod Trace
pub mod Tests
use ullm.Prelude.{ℕ, ◌≡◌, List, [], ◌∷◌, length, All}
use ullm.Model.Pallas.{Field}

abbrev pub vec_dim : ℕ
vec_dim = 8

abbrev pub num_layers : ℕ
num_layers = 8

module _ (field : Field) where
  pub record Layer : Type 0 where
    pub w : List (List field.Fp)
    pub b : List field.Fp

  pub record Model : Type 0 where
    pub layers : List Layer
    pub weight_commit : List ℕ
