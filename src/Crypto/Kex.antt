-- ===== src/Crypto/Kex.antt =====
-- crates/ullm-crypto/src/kex.rs: the hybrid key exchange, X25519 beside ML-KEM-768. The random
-- bytes that the code draws are arguments: those of the encapsulation and those of the key.
use ullm.Prelude.{
  ℕ, ◌≡◌, refl, List, ◌++◌, Option, none, some, ◌==◌, if◌then◌else◌, length, arith, length-append,
  Option-cases, inl, inr,
}
use ullm.Core.{Error, Result, ok, expect, ok_or, ◌>>=◌}

-- What the crates `ml_kem` and `x25519_dalek` document: encapsulation for the public key of a
-- pair succeeds and its secret of 32 bytes is what decapsulation gives; two X25519 keys agree.
-- Public keys and ciphertexts have one length, that of their type.
pub record Exchange : Type 0 where
  pub generate : List ℕ → List ℕ × List ℕ
  pub encapsulate : List ℕ → List ℕ → Option (List ℕ × List ℕ)
  pub decapsulate : List ℕ → List ℕ → Option (List ℕ)
  pub public_key : List ℕ → List ℕ
  pub diffie_hellman : List ℕ → List ℕ → List ℕ
  pub encapsulates :
      (seed coins : List ℕ)
      → (ct : List ℕ) × (ss : List ℕ) × (encapsulate (generate seed).1 coins ≡ some (ct, ss))
        × (decapsulate (generate seed).0 ct ≡ some ss)
        × (length ss ≡ 32)
  pub agrees : (a b : List ℕ) → diffie_hellman a (public_key b) ≡ diffie_hellman b (public_key a)
  pub length-diffie_hellman : (a pk : List ℕ) → length (diffie_hellman a pk) ≡ 32
  pub length-public_key : (sk : List ℕ) → length (public_key sk) ≡ 32
  pub length-mlkem_pk : (seed : List ℕ) → length (generate seed).1 ≡ 1184
  pub length-mlkem_ct :
      (pk coins ct ss : List ℕ) → encapsulate pk coins ≡ some (ct, ss) → length ct ≡ 1088

pub record Encapsulated : Type 0 where
  pub mlkem_ct : List ℕ
  pub client_x25519_pk : List ℕ
  pub secret : List ℕ

-- `ml_kem_pk_from_bytes` and `ml_kem_ct_from_bytes`: the bytes of an array of the right length.
unfoldable pub ml_kem_pk_from_bytes : List ℕ → Option (List ℕ)
ml_kem_pk_from_bytes b = if length b == 1184 then some b else none

unfoldable pub ml_kem_ct_from_bytes : List ℕ → Option (List ℕ)
ml_kem_ct_from_bytes b = if length b == 1088 then some b else none

module _ (kex : Exchange) where
  unfoldable pub ml_kem_keypair : List ℕ → List ℕ × List ℕ
  ml_kem_keypair seed = kex.generate seed

  unfoldable pub hybrid_encap : List ℕ → List ℕ → List ℕ → List ℕ → Result Encapsulated
  hybrid_encap coins client_x25519_sk server_mlkem_pk server_x25519_pk = do
    (mlkem_ct, mlkem_ss) ← expect (kex.encapsulate server_mlkem_pk coins)
    let client_x25519_pk = kex.public_key client_x25519_sk
    let x25519_ss = kex.diffie_hellman client_x25519_sk server_x25519_pk
    ok (record {
      mlkem_ct = mlkem_ct;
      client_x25519_pk = client_x25519_pk;
      secret = mlkem_ss ++ x25519_ss;
    })

  unfoldable pub hybrid_decap : List ℕ → List ℕ → List ℕ → List ℕ → Result (List ℕ)
  hybrid_decap server_mlkem_sk server_x25519_sk mlkem_ct client_x25519_pk = do
    mlkem_ss ← ok_or Error.other (kex.decapsulate server_mlkem_sk mlkem_ct)
    let x25519_ss = kex.diffie_hellman server_x25519_sk client_x25519_pk
    ok (mlkem_ss ++ x25519_ss)

  -- What the client encapsulates for a server's keys the server decapsulates: one secret of 64
  -- bytes on both sides, and no call fails.
  pub hybrid_decap-hybrid_encap :
      (seed coins client_sk server_sk : List ℕ)
      → (out : Encapsulated) × (hybrid_encap coins client_sk
            (ml_kem_keypair seed).1
            (kex.public_key server_sk)
          ≡ ok out)
        × (hybrid_decap (ml_kem_keypair seed).0 server_sk out.mlkem_ct out.client_x25519_pk
            ≡ ok out.secret)
        × (length out.secret ≡ 64)
  unfolding hybrid_encap hybrid_decap ml_kem_keypair
  hybrid_decap-hybrid_encap seed coins client_sk server_sk =
      let (ct, ss, encapsulated, decapsulated, size) = kex.encapsulates seed coins in
      let dh = kex.diffie_hellman client_sk (kex.public_key server_sk) in
      (
        record { mlkem_ct = ct; client_x25519_pk = kex.public_key client_sk; secret = ss ++ dh },
        rw encapsulated refl,
        rw (decapsulated, kex.agrees server_sk client_sk) refl,
        omega (
          arith,
          length-append ss dh,
          size,
          kex.length-diffie_hellman client_sk (kex.public_key server_sk),
        ),
      )

  -- The client's two public values have the lengths of their types.
  pub hybrid_encap-IsSized :
      (coins client_sk mlkem_pk x25519_pk : List ℕ) (out : Encapsulated)
      → hybrid_encap coins client_sk mlkem_pk x25519_pk ≡ ok out
      → (length out.mlkem_ct ≡ 1088) × (length out.client_x25519_pk ≡ 32)
  unfolding hybrid_encap
  hybrid_encap-IsSized coins client_sk mlkem_pk x25519_pk out h =
      elim (Option-cases (kex.encapsulate mlkem_pk coins)) [
        | inl none_there ↦ ground (arith, h, none_there)
        | inr ((ct, ss), made) ↦ ground (
          arith,
          h,
          made,
          kex.length-mlkem_ct mlkem_pk coins ct ss made,
          kex.length-public_key client_sk,
        )
      ]
