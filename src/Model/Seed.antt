-- ===== src/Model/Seed.antt =====
-- crates/ullm-model/src/model.rs: `Model::from_seed`, the weight commitments.
pub mod Shape
use ullm.Prelude.{
  ℕ, zero, suc, ◌+◌, ◌*◌, bit_and, List, [], ◌∷◌, ◌++◌, take, drop, length, ◌==◌, if◌then◌else◌,
  get_elem?, Option,
}
use ullm.Core.{Result, ok, panic, expect, ◌>>=◌}
use ullm.Core.Sha.{Sha}
use ullm.Core.Bytes.{to_be_bytes}
use ullm.Crypto.Kdf.{Hkdf}
use ullm.Model.{Layer, Model, vec_dim, num_layers}
use ullm.Model.Pallas.{Field}

abbrev pub model_seed : List ℕ
model_seed =
    85 ∷ 76 ∷ 76 ∷ 77 ∷ 45 ∷ 118 ∷ 49 ∷ 32 ∷ 109 ∷ 111 ∷ 100 ∷ 101 ∷ 108 ∷ 32 ∷ 115 ∷ 101 ∷ 101
    ∷ 100 ∷ []

abbrev pub weights : List ℕ
weights = 119 ∷ 101 ∷ 105 ∷ 103 ∷ 104 ∷ 116 ∷ 115 ∷ 47 ∷ []

abbrev pub model_label : List ℕ
model_label = 85 ∷ 76 ∷ 76 ∷ 77 ∷ 45 ∷ 118 ∷ 49 ∷ 32 ∷ 109 ∷ 111 ∷ 100 ∷ 101 ∷ 108 ∷ []

-- `clamped[31] &= 0x3F`, on what stands from index 31 on.
unfoldable pub clamp_top : List ℕ → List ℕ
clamp_top [] = []
clamp_top (b ∷ bs) = bit_and b 63 ∷ bs

unfoldable pub clamp : List ℕ → List ℕ
clamp bytes = take 31 bytes ++ clamp_top (drop 31 bytes)

module _ (field : Field) (sha : Sha) where
  unfoldable pub fp_from_wide : List ℕ → Result field.Fp
  fp_from_wide bytes = expect (field.from_repr_vartime (clamp (sha.sha256 bytes)))

  -- The next elements from the raw bytes, 64 bytes each, and the bytes that are left.
  unfoldable pub read_vector : ℕ → List ℕ → Result (List field.Fp × List ℕ)
  read_vector zero raw = ok ([], raw)
  read_vector (suc n) raw = do
    x ← fp_from_wide (take 64 raw)
    (xs, rest) ← read_vector n (drop 64 raw)
    ok (x ∷ xs, rest)

  unfoldable pub read_matrix : ℕ → List ℕ → Result (List (List field.Fp) × List ℕ)
  read_matrix zero raw = ok ([], raw)
  read_matrix (suc n) raw = do
    (row, rest) ← read_vector vec_dim raw
    (rows, rest') ← read_matrix n rest
    ok (row ∷ rows, rest')

  unfoldable pub weight_bytes : List (Layer field) → List ℕ
  weight_bytes [] = []
  weight_bytes (layer ∷ layers) = (flat layer.w ++ reprs layer.b) ++ weight_bytes layers
    where
      reprs : List field.Fp → List ℕ
      reprs [] = []
      reprs (v ∷ vs) = field.to_repr v ++ reprs vs

      flat : List (List field.Fp) → List ℕ
      flat [] = []
      flat (row ∷ rows) = reprs row ++ flat rows

  unfoldable pub compute_weight_commit : List (Layer field) → List ℕ
  compute_weight_commit layers = take 32 (sha.sha512 (model_label ++ weight_bytes layers))

  module _ (hkdf : Hkdf) where
    unfoldable pub read_layer : List ℕ → ℕ → Result (Layer field)
    read_layer prk layer_idx = do
      raw ← expect (
          hkdf.hkdf_expand prk (weights ++ to_be_bytes 4 layer_idx)
            ((vec_dim * vec_dim + vec_dim) * 64))
      (w, rest) ← read_matrix vec_dim raw
      (b, rest') ← read_vector vec_dim rest
      ok (record { w = w; b = b })

    unfoldable pub read_layers : List ℕ → ℕ → ℕ → Result (List (Layer field))
    read_layers prk zero layer_idx = ok []
    read_layers prk (suc n) layer_idx = do
      layer ← read_layer prk layer_idx
      layers ← read_layers prk n (suc layer_idx)
      ok (layer ∷ layers)

    unfoldable pub from_seed : List ℕ → Result (Model field)
    from_seed seed = do
      layers ← read_layers (hkdf.hkdf_extract model_seed seed) num_layers 0
      ok (record { layers = layers; weight_commit = compute_weight_commit layers })

-- `vector_commit_native`: an assertion on the length, then the hash.
unfoldable pub vector_commit_native : (field : Field) → List field.Fp → Result field.Fp
vector_commit_native field elements =
    if length elements == vec_dim then ok (field.poseidon elements) else panic

unfoldable pub vector_commit : (field : Field) → List field.Fp → Result (List ℕ)
vector_commit field elements = do c ← vector_commit_native field elements; ok (field.to_repr c)

unfoldable pub flatten : {A : Type 0} → List (List A) → List A
flatten [] = []
flatten (row ∷ rows) = row ++ flatten rows

-- `Model::layer_weight_commit`
unfoldable pub layer_weight_commit : (field : Field) → Model field → ℕ → Result field.Fp
layer_weight_commit field model layer_idx = do
  layer ← expect (get_elem? model.layers layer_idx)
  vector_commit_native field (flatten layer.w ++ layer.b)
