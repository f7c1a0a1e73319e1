-- ===== src/Model/Tests.antt =====
-- The theorems on the model at small stand-ins for the crates: the field of two elements, and hashes
-- that repeat the length of their text.
use ullm.Prelude.{
  ℕ, zero, suc, ◌≡◌, refl, Bool, true, false, not, ◌&&◌, List, [], ◌∷◌, ◌++◌, some, length,
  replicate,
}
use ullm.Core.{ok, panic}
use ullm.Core.Sha.{Sha}
use ullm.Crypto.Tests.{hkdf}
use ullm.Model.{Model}
use ullm.Model.Pallas.{Field}
use ullm.Model.Seed.{from_seed, layer_weight_commit}
use ullm.Model.Seed.Shape.{IsModel, from_seed-IsModel, layer_weight_commit-Panics}

abbrev pub xor : Bool → Bool → Bool
xor true y = not y
xor false y = y

pub xor_assoc : (x y z : Bool) → xor (xor x y) z ≡ xor x (xor y z)
xor_assoc false y z = refl
xor_assoc true false z = refl
xor_assoc true true true = refl
xor_assoc true true false = refl

pub xor_comm : (x y : Bool) → xor x y ≡ xor y x
xor_comm false false = refl
xor_comm false true = refl
xor_comm true false = refl
xor_comm true true = refl

pub xor-false : (x : Bool) → xor x false ≡ x
xor-false false = refl
xor-false true = refl

pub and_xor : (x y z : Bool) → (x && xor y z) ≡ xor (x && y) (x && z)
and_xor false y z = refl
and_xor true y z = refl

pub xor_back : (x y : Bool) → xor x (xor y x) ≡ y
xor_back false false = refl
xor_back false true = refl
xor_back true false = refl
xor_back true true = refl

abbrev pub sum : List Bool → Bool
sum [] = false
sum (x ∷ xs) = xor x (sum xs)

abbrev pub is_nonzero : List ℕ → Bool
is_nonzero [] = false
is_nonzero (zero ∷ bs) = is_nonzero bs
is_nonzero (suc b ∷ bs) = true

abbrev pub repr : Bool → List ℕ
repr true = 1 ∷ replicate 31 0
repr false = replicate 32 0

abbrev pub field : Field
field = record {
  Fp = Bool;
  zero = false;
  add = xor;
  sub = λ x y. xor x y;
  mul = λ x y. x && y;
  add_assoc = xor_assoc;
  add_comm = xor_comm;
  add_zero = xor-false;
  mul_add = and_xor;
  add_sub = xor_back;
  from_repr_vartime = λ bytes. some (is_nonzero bytes);
  to_repr = repr;
  reads = λ low top size small. (is_nonzero (low ++ (top ∷ [])), refl);
  poseidon = sum;
}

abbrev pub sha : Sha
sha = record {
  sha256 = λ m. replicate 32 (length m);
  sha512 = λ m. replicate 64 (length m);
  length-sha256 = λ m. refl;
  length-sha512 = λ m. refl;
}

abbrev pub seed : List ℕ
seed = replicate 32 7

from_seed-IsModel_example :
    (model : Model field) × (from_seed field sha hkdf seed ≡ ok model) × IsModel field model
from_seed-IsModel_example = from_seed-IsModel field sha hkdf seed

pub seeded :
    (model : Model field) × (from_seed field sha hkdf seed ≡ ok model) × IsModel field model
seeded = from_seed-IsModel field sha hkdf seed

layer_weight_commit-Panics_example : layer_weight_commit field seeded.0 3 ≡ panic
layer_weight_commit-Panics_example = layer_weight_commit-Panics field seeded.0 3 seeded.2
