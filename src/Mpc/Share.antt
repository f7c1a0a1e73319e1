-- ===== src/Mpc/Share.antt =====
-- crates/ullm-mpc/src/share.rs and party.rs: additive shares, and what one party computes on its
-- share. The field elements that the code draws are a stream.
use ullm.Prelude.{ℕ, suc, Bool, true, false, if◌then◌else◌, List, [], ◌∷◌, map}
use ullm.Model.{Layer, Model}
use ullm.Model.Pallas.{Field}
use ullm.Model.Trace.{apply_rows}

pub data PartyId : Type 0 where
  party_zero party_one : PartyId

unfoldable pub owns_bias : PartyId → Bool
owns_bias party_zero = true
owns_bias party_one = false

module _ (field : Field) where
  unfoldable pub share_value : field.Fp → field.Fp → field.Fp × field.Fp
  share_value value drawn = (drawn, field.sub value drawn)

  unfoldable pub share_vector : List field.Fp → (ℕ → field.Fp) → ℕ → List field.Fp × List field.Fp
  share_vector [] drawn i = ([], [])
  share_vector (v ∷ vs) drawn i =
      let (a, b) = share_value v (drawn i) in
      let (s0, s1) = share_vector vs drawn (suc i) in (a ∷ s0, b ∷ s1)

  unfoldable pub reconstruct : field.Fp → field.Fp → field.Fp
  reconstruct s0 s1 = field.add s0 s1

  unfoldable pub reconstruct_vector : List field.Fp → List field.Fp → List field.Fp
  reconstruct_vector (a ∷ s0) (b ∷ s1) = field.add a b ∷ reconstruct_vector s0 s1
  reconstruct_vector _ _ = []

  -- What a party starts its sums with.
  unfoldable pub bias_of : PartyId → List field.Fp → List field.Fp
  unfolding owns_bias
  bias_of id b = if owns_bias id then b else map (λ x. field.zero) b

  unfoldable pub share_layers : PartyId → List (Layer field) → List field.Fp → List (List field.Fp)
  share_layers id [] cur = []
  share_layers id (layer ∷ layers) cur =
      let next = apply_rows field (bias_of id layer.b) layer.w cur in
      next ∷ share_layers id layers next

  -- `Party::run_share`
  unfoldable pub run_share : PartyId → Model field → List field.Fp → List (List field.Fp)
  run_share id model input_share = input_share ∷ share_layers id model.layers input_share
