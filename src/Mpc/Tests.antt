-- ===== src/Mpc/Tests.antt =====
-- The two-party theorem at the model of a seed over the field of two elements.
use ullm.Prelude.{ℕ, zero, suc, ◌≡◌, Bool, true, false, not, List, [], ◌∷◌, length}
use ullm.Core.{ok}
use ullm.Model.Tests.{field, seeded}
use ullm.Model.Trace.{run_model, output}
use ullm.Mpc.Session.{ClientTranscript, MpcResponse, run_session}
use ullm.Mpc.Session.Equals.{run_session-run_model}

-- The elements drawn alternate.
abbrev drawn : ℕ → Bool
drawn zero = true
drawn (suc i) = not (drawn i)

abbrev input : List Bool
input = true ∷ false ∷ true ∷ true ∷ false ∷ false ∷ true ∷ false ∷ []

run_session-run_model_example :
    (transcript : ClientTranscript field) × (response : MpcResponse field) × (run_session field
        seeded.0 drawn input
      ≡ ok (transcript, response))
    × (transcript.per_layer_outputs ≡ (run_model field seeded.0 input).activations)
    × (output field (run_model field seeded.0 input) ≡ ok transcript.output)
    × (length response.party0_shares ≡ 9)
    × (length response.party1_shares ≡ 9)
run_session-run_model_example = run_session-run_model field seeded.0 drawn input seeded.2.layers_8
