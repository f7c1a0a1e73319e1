-- ===== src/Mpc/Session.antt =====
-- crates/ullm-mpc/src/transcript.rs: a session of the two parties.
pub mod Equals
use ullm.Prelude.{ℕ, zero, suc, List, [], ◌∷◌, get_elem?}
use ullm.Core.{Result, ok, expect, ◌>>=◌}
use ullm.Model.{Model, num_layers}
use ullm.Model.Pallas.{Field}
use ullm.Model.Trace.{last}
use ullm.Mpc.Share.{PartyId, share_vector, reconstruct_vector, run_share}

module _ (field : Field) where
  pub record ClientTranscript : Type 0 where
    pub input : List field.Fp
    pub output : List field.Fp
    pub per_layer_outputs : List (List field.Fp)

  pub record MpcResponse : Type 0 where
    pub party0_shares : List (List field.Fp)
    pub party1_shares : List (List field.Fp)

  -- The loop over the layers' indices, of which `n` are left from `i` on.
  unfoldable pub reconstruct_from :
      ℕ → ℕ → List (List field.Fp) → List (List field.Fp) → Result (List (List field.Fp))
  reconstruct_from zero i shares0 shares1 = ok []
  reconstruct_from (suc n) i shares0 shares1 = do
    s0 ← expect (get_elem? shares0 i)
    s1 ← expect (get_elem? shares1 i)
    rest ← reconstruct_from n (suc i) shares0 shares1
    ok (reconstruct_vector field s0 s1 ∷ rest)

  -- `MpcSession::run`
  unfoldable pub run_session :
      Model field → (ℕ → field.Fp) → List field.Fp → Result (ClientTranscript × MpcResponse)
  run_session model drawn input = do
    let (s0, s1) = share_vector field input drawn 0
    let shares0 = run_share field PartyId.party_zero model s0
    let shares1 = run_share field PartyId.party_one model s1
    per_layer ← reconstruct_from (suc num_layers) 0 shares0 shares1
    output ← expect (last per_layer)
    ok (
      record { input = input; output = output; per_layer_outputs = per_layer },
      record { party0_shares = shares0; party1_shares = shares1 },
    )
