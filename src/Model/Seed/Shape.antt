-- ===== src/Model/Seed/Shape.antt =====
-- Every seed gives a model of the right shape.
use ullm.Prelude.{
  ℕ, zero, suc, ◌*◌, ◌<◌, ◌≡◌, refl, ap, bit_and, List, [], ◌∷◌, ◌++◌, take, drop, length,
  length-take, length-drop, length-append, arith, All, some, get_elem?, Option-cases, inl, inr,
}
use mathlib.Core.Path.{subst}
use ullm.Prelude.Bits.{bit_and-low_mask}
use ullm.Core.{ok, panic}
use ullm.Core.Bytes.{to_be_bytes}
use ullm.Core.Sha.{Sha}
use ullm.Crypto.Kdf.{Hkdf}
use ullm.Model.{Layer, Model}
use ullm.Model.Pallas.{Field}
use ullm.Model.Seed.{
  clamp_top, clamp, weights, model_seed, fp_from_wide, read_vector, read_matrix, read_layer,
  read_layers, from_seed, compute_weight_commit, model_label, weight_bytes, flatten,
  vector_commit_native, layer_weight_commit,
}

-- Eight by eight weights and eight biases.
pub record IsLayer (field : Field) (layer : Layer field) : Type 0 where
  pub rows_8 : length layer.w ≡ 8
  pub row_8 : All (λ row. length row ≡ 8) layer.w
  pub bias_8 : length layer.b ≡ 8

pub record IsModel (field : Field) (model : Model field) : Type 0 where
  pub layers_8 : length model.layers ≡ 8
  pub layer_shape : All (IsLayer field) model.layers
  pub commit_32 : length model.weight_commit ≡ 32

clamp_top-One : (bs : List ℕ) → length bs ≡ 1 → (top : ℕ) × (clamp_top bs ≡ top ∷ []) × (top < 64)
unfolding clamp_top
clamp_top-One [] h = absurd (omega (arith, h))
clamp_top-One (b ∷ []) h = (bit_and b 63, refl, omega (arith, bit_and-low_mask 6 b))
clamp_top-One (b ∷ c ∷ bs) h = absurd (omega (arith, h))

clamp-Splits :
    (bytes : List ℕ)
    → length bytes ≡ 32
    → (low : List ℕ) × (top : ℕ) × (clamp bytes ≡ low ++ (top ∷ []))
      × (length low ≡ 31)
      × (top < 64)
unfolding clamp
clamp-Splits bytes h =
    let (top, same, small) =
      clamp_top-One (drop 31 bytes) (omega (arith, length-drop 31 bytes, h)) in
    (
      take 31 bytes,
      top,
      ap (λ t. take 31 bytes ++ t) same,
      omega (arith, length-take 31 bytes, h),
      small,
    )

All-get_elem? :
    {A : Type 0} (P : A → Type 0) (xs : List A) (i : ℕ) (x : A)
    → All P xs
    → get_elem? xs i ≡ some x
    → P x
All-get_elem? P [] i x h e = absurd cc
All-get_elem? {A = A} P (y ∷ xs) zero x h e = subst P (inverse e) h.0
  where
    inverse : {u v : A} → some u ≡ some v → u ≡ v
    inverse q = cc
All-get_elem? P (y ∷ xs) (suc i) x h e = All-get_elem? P xs i x h.1 e

module _ (field : Field) (sha : Sha) where
  fp_from_wide-ok : (bytes : List ℕ) → (x : field.Fp) × (fp_from_wide field sha bytes ≡ ok x)
  unfolding fp_from_wide
  fp_from_wide-ok bytes =
      let (low, top, same, size, small) =
        clamp-Splits (sha.sha256 bytes) (sha.length-sha256 bytes) in
      let (x, read) = field.reads low top size small in (x, rw (same, read) refl)

  read_vector-ok :
      (n : ℕ) (raw : List ℕ)
      → (xs : List field.Fp) × (rest : List ℕ) × (read_vector field sha n raw ≡ ok (xs, rest))
        × (length xs ≡ n)
  unfolding read_vector
  read_vector-ok zero raw = ([], raw, refl, refl)
  read_vector-ok (suc n) raw =
      let (x, read) = fp_from_wide-ok (take 64 raw) in
      let (xs, rest, more, size) = read_vector-ok n (drop 64 raw) in
      (x ∷ xs, rest, rw (read, more) refl, ap suc size)

  read_matrix-ok :
      (n : ℕ) (raw : List ℕ)
      → (rows : List (List field.Fp)) × (rest : List ℕ) × (read_matrix field sha n raw
          ≡ ok (rows, rest))
        × (length rows ≡ n)
        × All (λ row. length row ≡ 8) rows
  unfolding read_matrix
  read_matrix-ok zero raw = ([], raw, refl, refl, tt)
  read_matrix-ok (suc n) raw =
      let (row, rest, read, row_8) = read_vector-ok 8 raw in
      let (rows, rest', more, size, all) = read_matrix-ok n rest in
      (row ∷ rows, rest', rw (read, more) refl, ap suc size, (row_8, all))

  module _ (hkdf : Hkdf) where
    read_layer-ok :
        (prk : List ℕ) (layer_idx : ℕ)
        → length prk ≡ 32
        → (layer : Layer field) × (read_layer field sha hkdf prk layer_idx ≡ ok layer)
          × IsLayer field layer
    unfolding read_layer
    read_layer-ok prk layer_idx size =
        let (raw, expanded, _) =
          hkdf.expands prk (weights ++ to_be_bytes 4 layer_idx) 4608 size (omega arith) in
        let (w, rest, read, rows_8, row_8) = read_matrix-ok 8 raw in
        let (b, rest', read', bias_8) = read_vector-ok 8 rest in
        (
          record { w = w; b = b },
          rw (expanded, read, read') refl,
          record { rows_8 = rows_8; row_8 = row_8; bias_8 = bias_8 },
        )

    read_layers-ok :
        (prk : List ℕ) (n layer_idx : ℕ)
        → length prk ≡ 32
        → (layers : List (Layer field)) × (read_layers field sha hkdf prk n layer_idx ≡ ok layers)
          × (length layers ≡ n)
          × All (IsLayer field) layers
    unfolding read_layers
    read_layers-ok prk zero layer_idx size = ([], refl, refl, tt)
    read_layers-ok prk (suc n) layer_idx size =
        let (layer, read, shape) = read_layer-ok prk layer_idx size in
        let (layers, more, count, shapes) = read_layers-ok prk n (suc layer_idx) size in
        (layer ∷ layers, rw (read, more) refl, ap suc count, (shape, shapes))

    -- Every seed gives a model, with no panic: eight layers of eight by eight weights and eight
    -- biases, and a weight commitment of 32 bytes.
    pub from_seed-IsModel :
        (seed : List ℕ)
        → (model : Model field) × (from_seed field sha hkdf seed ≡ ok model) × IsModel field model
    unfolding from_seed compute_weight_commit
    from_seed-IsModel seed =
        let (layers, read, count, shapes) =
          read_layers-ok (hkdf.hkdf_extract model_seed seed) 8 0
            (hkdf.length-extract model_seed seed) in
        let text = model_label ++ weight_bytes field sha layers in
        (
          record { layers = layers; weight_commit = compute_weight_commit field sha layers },
          rw read refl,
          record {
            layers_8 = count;
            layer_shape = shapes;
            commit_32 = omega (arith, length-take 32 (sha.sha512 text), sha.length-sha512 text);
          },
        )

length-flatten :
    {A : Type 0} (rows : List (List A))
    → All (λ row. length row ≡ 8) rows
    → length (flatten rows) ≡ 8 * length rows
unfolding flatten
length-flatten [] h = refl
length-flatten (row ∷ rows) h =
    omega (arith, length-append row (flatten rows), h.0, length-flatten rows h.1)

hash_of_72 :
    (field : Field) (elements : List field.Fp)
    → length elements ≡ 72
    → vector_commit_native field elements ≡ panic
unfolding vector_commit_native
hash_of_72 field elements h = ground (arith, h)

-- The weight commitment of a layer is never computed: a layer of the model's shape flattens to 72
-- elements, which the hash of eight asserts against, and there is no other layer.
pub layer_weight_commit-Panics :
    (field : Field) (model : Model field) (layer_idx : ℕ)
    → IsModel field model
    → layer_weight_commit field model layer_idx ≡ panic
unfolding layer_weight_commit
layer_weight_commit-Panics field model layer_idx is =
    elim (Option-cases (get_elem? model.layers layer_idx)) [
      | inl none_there ↦ rw none_there refl
      | inr (layer, there) ↦
          let shape =
            All-get_elem? (IsLayer field) model.layers layer_idx layer is.layer_shape there in
          let size : length (flatten layer.w ++ layer.b) ≡ 72 = omega (
            arith,
            length-append (flatten layer.w) layer.b,
            length-flatten layer.w shape.row_8,
            shape.rows_8,
            shape.bias_8,
          ) in
          rw there (hash_of_72 field (flatten layer.w ++ layer.b) size)
    ]
