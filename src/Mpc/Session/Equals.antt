-- ===== src/Mpc/Session/Equals.antt =====
-- The two parties together compute what the model computes on the plain input.
use ullm.Prelude.{ℕ, zero, suc, ◌≡◌, refl, sym, ap, ◌∙◌, List, [], ◌∷◌, map, length, arith, some}
use ullm.Core.{ok}
use ullm.Model.{Layer, Model, num_layers}
use ullm.Model.Pallas.{Field}
use ullm.Model.Trace.{last, accumulate, apply_rows, run_layers, run_model, output}
use ullm.Mpc.Share.{
  PartyId, owns_bias, share_value, share_vector, reconstruct_vector, bias_of, share_layers,
  run_share,
}
use ullm.Mpc.Session.{ClientTranscript, MpcResponse, reconstruct_from, run_session}

module _ (field : Field) where
  abbrev together : List field.Fp → List field.Fp → List field.Fp
  together = reconstruct_vector field

  -- The shares of all layers, put together one by one.
  layers_together : List (List field.Fp) → List (List field.Fp) → List (List field.Fp)
  layers_together (x ∷ xs) (y ∷ ys) = together x y ∷ layers_together xs ys
  layers_together _ _ = []

  add_four :
      (a b c d : field.Fp)
      → field.add (field.add a b) (field.add c d) ≡ field.add (field.add a c) (field.add b d)
  add_four a b c d =
      field.add_assoc a b (field.add c d)
      ∙ ap (field.add a) (
          sym (field.add_assoc b c d)
          ∙ ap (λ t. field.add t d) (field.add_comm b c)
          ∙ field.add_assoc c b d)
      ∙ sym (field.add_assoc a c (field.add b d))

  accumulate-add :
      (a b : field.Fp) (ws x y : List field.Fp)
      → length x ≡ length y
      → field.add (accumulate field a ws x) (accumulate field b ws y)
        ≡ accumulate field (field.add a b) ws (together x y)
  unfolding accumulate reconstruct_vector
  accumulate-add a b [] x y h = refl
  accumulate-add a b (w ∷ ws) [] [] h = refl
  accumulate-add a b (w ∷ ws) [] (v ∷ y) h = absurd (omega (arith, h))
  accumulate-add a b (w ∷ ws) (u ∷ x) [] h = absurd (omega (arith, h))
  accumulate-add a b (w ∷ ws) (u ∷ x) (v ∷ y) h =
      accumulate-add (field.add a (field.mul w u)) (field.add b (field.mul w v)) ws x y
        (omega (arith, h))
      ∙ ap (λ t. accumulate field t ws (together x y))
          (add_four a (field.mul w u) b (field.mul w v)
            ∙ ap (field.add (field.add a b)) (sym (field.mul_add w u v)))

  zeros : List field.Fp → List field.Fp
  zeros b = map (λ x. field.zero) b

  apply_rows-together :
      (bs : List field.Fp) (rows : List (List field.Fp)) (x y : List field.Fp)
      → length x ≡ length y
      → together (apply_rows field bs rows x) (apply_rows field (zeros bs) rows y)
        ≡ apply_rows field bs rows (together x y)
  unfolding apply_rows reconstruct_vector zeros
  apply_rows-together [] rows x y h = refl
  apply_rows-together (b ∷ bs) [] x y h = refl
  apply_rows-together (b ∷ bs) (row ∷ rows) x y h =
      rw
        (accumulate-add b field.zero row x y h, field.add_zero b, apply_rows-together bs rows x y h)
        refl

  length-apply_rows :
      (bs : List field.Fp) (rows : List (List field.Fp)) (x y : List field.Fp)
      → length (apply_rows field bs rows x) ≡ length (apply_rows field (zeros bs) rows y)
  unfolding apply_rows zeros
  length-apply_rows [] rows x y = refl
  length-apply_rows (b ∷ bs) [] x y = refl
  length-apply_rows (b ∷ bs) (row ∷ rows) x y = ap suc (length-apply_rows bs rows x y)

  share_layers-together :
      (layers : List (Layer field)) (x y : List field.Fp)
      → length x ≡ length y
      → layers_together
          (share_layers field PartyId.party_zero layers x)
          (share_layers field PartyId.party_one layers y)
        ≡ run_layers field layers (together x y)
  unfolding share_layers run_layers layers_together bias_of owns_bias zeros
  share_layers-together [] x y h = refl
  share_layers-together (layer ∷ layers) x y h =
      let x' = apply_rows field layer.b layer.w x in
      let y' = apply_rows field (zeros layer.b) layer.w y in
      let next : together x' y' ≡ apply_rows field layer.b layer.w (together x y) =
        apply_rows-together layer.b layer.w x y h in
      let rest = share_layers-together layers x' y' (length-apply_rows layer.b layer.w x y) in
      cc (next, rest)

  length-share_layers :
      (id : PartyId) (layers : List (Layer field)) (x : List field.Fp)
      → length (share_layers field id layers x) ≡ length layers
  unfolding share_layers
  length-share_layers id [] x = refl
  length-share_layers id (layer ∷ layers) x = ap suc (length-share_layers id layers _)

  share_vector-together :
      (v : List field.Fp) (drawn : ℕ → field.Fp) (i : ℕ)
      → together (share_vector field v drawn i).0 (share_vector field v drawn i).1 ≡ v
  unfolding share_vector share_value reconstruct_vector
  share_vector-together [] drawn i = refl
  share_vector-together (x ∷ v) drawn i =
      rw (field.add_sub (drawn i) x, share_vector-together v drawn (suc i)) refl

  length-share_vector :
      (v : List field.Fp) (drawn : ℕ → field.Fp) (i : ℕ)
      → length (share_vector field v drawn i).0 ≡ length (share_vector field v drawn i).1
  unfolding share_vector share_value
  length-share_vector [] drawn i = refl
  length-share_vector (x ∷ v) drawn i = ap suc (length-share_vector v drawn (suc i))

  reconstruct_from-cons :
      (n i : ℕ) (x y : List field.Fp) (xs ys : List (List field.Fp))
      → reconstruct_from field n (suc i) (x ∷ xs) (y ∷ ys) ≡ reconstruct_from field n i xs ys
  unfolding reconstruct_from
  reconstruct_from-cons zero i x y xs ys = refl
  reconstruct_from-cons (suc n) i x y xs ys = rw (reconstruct_from-cons n (suc i) x y xs ys) refl

  reconstruct_from-ok :
      (n : ℕ) (xs ys : List (List field.Fp))
      → length xs ≡ n
      → length ys ≡ n
      → reconstruct_from field n 0 xs ys ≡ ok (layers_together xs ys)
  unfolding reconstruct_from layers_together
  reconstruct_from-ok zero [] [] h h' = refl
  reconstruct_from-ok zero (x ∷ xs) ys h h' = absurd (omega (arith, h))
  reconstruct_from-ok zero [] (y ∷ ys) h h' = absurd (omega (arith, h'))
  reconstruct_from-ok (suc n) [] ys h h' = absurd (omega (arith, h))
  reconstruct_from-ok (suc n) (x ∷ xs) [] h h' = absurd (omega (arith, h'))
  reconstruct_from-ok (suc n) (x ∷ xs) (y ∷ ys) h h' =
      rw
        (
          reconstruct_from-cons n 0 x y xs ys,
          reconstruct_from-ok n xs ys (omega (arith, h)) (omega (arith, h')),
        )
        refl

  last-cons : {A : Type 0} (x : A) (xs : List A) → (y : A) × (last (x ∷ xs) ≡ some y)
  unfolding last
  last-cons x [] = (x, refl)
  last-cons x (y ∷ xs) = last-cons y xs

  -- For every model of eight layers, input and random elements, the session of the two parties
  -- returns; its outputs layer by layer are the activations of the model's own run on the input,
  -- its output is that run's, and both parties report nine shares.
  pub run_session-run_model :
      (model : Model field) (drawn : ℕ → field.Fp) (input : List field.Fp)
      → length model.layers ≡ num_layers
      → (transcript : ClientTranscript field) × (response : MpcResponse field) × (run_session field
            model drawn input
          ≡ ok (transcript, response))
        × (transcript.per_layer_outputs ≡ (run_model field model input).activations)
        × (output field (run_model field model input) ≡ ok transcript.output)
        × (length response.party0_shares ≡ 9)
        × (length response.party1_shares ≡ 9)
  unfolding run_session run_model output run_share layers_together
  run_session-run_model model drawn input h =
      let s0 = (share_vector field input drawn 0).0 in
      let s1 = (share_vector field input drawn 0).1 in
      let same = share_vector-together input drawn 0 in
      let shares0 = s0 ∷ share_layers field PartyId.party_zero model.layers s0 in
      let shares1 = s1 ∷ share_layers field PartyId.party_one model.layers s1 in
      let size0 : length shares0 ≡ 9 =
        omega (arith, h, length-share_layers PartyId.party_zero model.layers s0) in
      let size1 : length shares1 ≡ 9 =
        omega (arith, h, length-share_layers PartyId.party_one model.layers s1) in
      let whole : layers_together shares0 shares1 ≡ input ∷ run_layers field model.layers input =
        cc (same, share_layers-together model.layers s0 s1 (length-share_vector input drawn 0)) in
      let rebuilt = reconstruct_from-ok 9 shares0 shares1 size0 size1 ∙ ap ok whole in
      let (out, at_end) = last-cons input (run_layers field model.layers input) in
      (
        record {
          input = input;
          output = out;
          per_layer_outputs = input ∷ run_layers field model.layers input;
        },
        record { party0_shares = shares0; party1_shares = shares1 },
        rw (rebuilt, at_end) refl,
        refl,
        rw at_end refl,
        size0,
        size1,
      )
