-- ===== src/Model/Trace.antt =====
-- crates/ullm-model/src/model.rs (`Model::run`) and trace.rs: a run of the model, and the commitments
-- to its activations.
use ullm.Prelude.{ℕ, List, [], ◌∷◌, Option, none, some}
use ullm.Core.{Result, ok, expect, ◌>>=◌}
use ullm.Model.{Layer, Model}
use ullm.Model.Pallas.{Field}
use ullm.Model.Seed.{vector_commit_native}

unfoldable pub last : {A : Type 0} → List A → Option A
last [] = none
last (x ∷ []) = some x
last (x ∷ y ∷ xs) = last (y ∷ xs)

module _ (field : Field) where
  -- The inner loop: `acc += w[i][j] * cur[j]`.
  unfoldable pub accumulate : field.Fp → List field.Fp → List field.Fp → field.Fp
  accumulate acc [] cur = acc
  accumulate acc (w ∷ ws) [] = acc
  accumulate acc (w ∷ ws) (x ∷ cur) = accumulate (field.add acc (field.mul w x)) ws cur

  -- The loop over the rows, each from its start value.
  unfoldable pub apply_rows : List field.Fp → List (List field.Fp) → List field.Fp → List field.Fp
  apply_rows [] rows cur = []
  apply_rows (b ∷ bs) [] cur = []
  apply_rows (b ∷ bs) (row ∷ rows) cur = accumulate b row cur ∷ apply_rows bs rows cur

  unfoldable pub run_layers : List (Layer field) → List field.Fp → List (List field.Fp)
  run_layers [] cur = []
  run_layers (layer ∷ layers) cur =
      let next = apply_rows layer.b layer.w cur in next ∷ run_layers layers next

  pub record Trace : Type 0 where
    pub activations : List (List field.Fp)

  -- `Model::run`
  unfoldable pub run_model : Model field → List field.Fp → Trace
  run_model model input = record { activations = input ∷ run_layers model.layers input }

  unfoldable pub output : Trace → Result (List field.Fp)
  output trace = expect (last trace.activations)

  pub record TraceCommits : Type 0 where
    pub field_commits : List field.Fp
    pub bytes : List (List ℕ)

  -- The loop of `Trace::commits`.
  unfoldable pub commit_all : List (List field.Fp) → Result TraceCommits
  commit_all [] = ok (record { field_commits = []; bytes = [] })
  commit_all (v ∷ vs) = do
    c ← vector_commit_native field v
    rest ← commit_all vs
    ok (record { field_commits = c ∷ rest.field_commits; bytes = field.to_repr c ∷ rest.bytes })

  unfoldable pub commits : Trace → Result TraceCommits
  commits trace = commit_all trace.activations
