-- ===== src/Handshake/State/Binding.antt =====
-- What a finished handshake went through, and what its transcript hash binds.
use ullm.Prelude.{
  ℕ, ◌≡◌, sym, ◌∙◌, ap, ◌⊎◌, inl, inr, List, ◌++◌, some, Option-cases, length, arith,
}
use ullm.Prelude.Digest.{Collide, digest-inverse, append-inverse, prefix-inverse}
use ullm.Core.{Result, ok, err, Error}
use ullm.Crypto.Kex.{ml_kem_ct_from_bytes}
use ullm.Handshake.Messages.{
  PreKeyBundle, ClientHello, protocol_id, new_transcript, update, hash, encode, decode,
}
use ullm.Handshake.Messages.Suite.{default_phase1, validate, validate-default_phase1}
use ullm.Handshake.State.{
  Crates, EstablishedKeys, ClientHandshake, ServerHandshake, Drawn, establish, initiate, complete,
  respond, check_version,
}

-- The messages of a finished handshake, as the server read the client's.
pub record IsAccepted (crates : Crates) (hello_bytes : List ℕ) : Type 0 where
  pub hello : ClientHello
  pub decoded : crates.client_hello.from_bytes hello_bytes ≡ some hello
  pub version_3 : hello.version ≡ 3
  pub suite_default : hello.cipher_suite ≡ default_phase1
  pub ct_1088 : length hello.client_mlkem_ct ≡ 1088

check_version-ok : (got : ℕ) → check_version got ≡ ok tt → got ≡ 3
unfolding check_version
check_version-ok got h = ground (arith, h)

validate-ok : (s : _) → validate s ≡ ok tt → s ≡ default_phase1
validate-ok s h = elim (validate-default_phase1 s) [
  | inl (same, _) ↦ same
  | inr (_, refused) ↦ absurd (clash (sym h ∙ refused))
]
  where
    clash : ◌≡◌ {A = Result (Unit {0})} (ok tt) (err Error.bad_cipher_suite) → ⊥
    clash q = cc

module _ (crates : Crates) where
  establish-hash :
      (transcript_hash hybrid report_data server_pk client_pk evidence : List ℕ)
      (keys : EstablishedKeys)
      → establish crates transcript_hash hybrid report_data server_pk client_pk evidence ≡ ok keys
      → keys.transcript_hash ≡ transcript_hash
  unfolding establish
  establish-hash transcript_hash hybrid report_data server_pk client_pk evidence keys h =
      ground (arith, h)

  -- A server that establishes keys has read a hello of the current version, with the default
  -- cipher suite and a ciphertext of 1,088 bytes.
  pub respond-IsAccepted :
      (server : ServerHandshake) (server_random hello_bytes ratchet_sk server_hello : List ℕ)
      (sign : List ℕ → List ℕ → Result (List ℕ × List ℕ)) (keys : EstablishedKeys)
      → respond crates server server_random hello_bytes ratchet_sk sign ≡ ok (server_hello, keys)
      → IsAccepted crates hello_bytes
  unfolding respond decode ml_kem_ct_from_bytes
  respond-IsAccepted server server_random hello_bytes ratchet_sk server_hello sign keys h =
      elim (Option-cases (crates.client_hello.from_bytes hello_bytes)) [
        | inl none_read ↦ absurd (ground (arith, h, none_read))
        | inr (hello, read) ↦
            let version : check_version hello.version ≡ ok tt = ground (arith, h, read) in
            let suite : validate hello.cipher_suite ≡ ok tt = ground (arith, h, read) in
            record {
              hello = hello;
              decoded = read;
              version_3 = check_version-ok hello.version version;
              suite_default = validate-ok hello.cipher_suite suite;
              ct_1088 = ground (arith, h, read);
            }
      ]

  -- The transcript hash on either side is that of the protocol's name and the two messages.
  respond-hash :
      (server : ServerHandshake) (server_random hello_bytes ratchet_sk server_hello : List ℕ)
      (sign : List ℕ → List ℕ → Result (List ℕ × List ℕ)) (keys : EstablishedKeys)
      → respond crates server server_random hello_bytes ratchet_sk sign ≡ ok (server_hello, keys)
      → keys.transcript_hash ≡ crates.sha.sha256 ((protocol_id ++ hello_bytes) ++ server_hello)
  unfolding respond decode encode establish hash update new_transcript
  respond-hash server server_random hello_bytes ratchet_sk server_hello sign keys h =
      ground (arith, h)

  initiate-transcript :
      (drawn : Drawn) (bundle : PreKeyBundle) (client : ClientHandshake) (hello : List ℕ)
      → initiate crates drawn bundle ≡ ok (client, hello)
      → client.transcript.hashed ≡ protocol_id ++ hello
  unfolding initiate encode update new_transcript
  initiate-transcript drawn bundle client hello h = ground (arith, h)

  complete-hash :
      (client : ClientHandshake) (server_hello : List ℕ)
      (verify : List ℕ → List ℕ → Result (Unit {0})) (keys : EstablishedKeys)
      → complete crates client server_hello verify ≡ ok keys
      → keys.transcript_hash ≡ crates.sha.sha256 (client.transcript.hashed ++ server_hello)
  unfolding complete decode establish hash update
  complete-hash client server_hello verify keys h = ground (arith, h)

  -- When a client establishes keys from a hello it sent, a server establishes keys with the same
  -- transcript hash, and the hello that the server read is as long as the one that was sent, then
  -- the two sent and read the same two messages, or the two transcripts, the protocol's name before
  -- the messages, are different texts with one SHA-256 digest.
  pub complete-Binding :
      (drawn : Drawn) (bundle : PreKeyBundle) (client : ClientHandshake) (hello : List ℕ)
      (server_hello : List ℕ) (verify : List ℕ → List ℕ → Result (Unit {0}))
      (keys keys' : EstablishedKeys) (server : ServerHandshake)
      (server_random hello' ratchet_sk server_hello' : List ℕ)
      (sign : List ℕ → List ℕ → Result (List ℕ × List ℕ))
      → initiate crates drawn bundle ≡ ok (client, hello)
      → complete crates client server_hello verify ≡ ok keys
      → respond crates server server_random hello' ratchet_sk sign ≡ ok (server_hello', keys')
      → keys.transcript_hash ≡ keys'.transcript_hash
      → length hello ≡ length hello'
      → ((hello ≡ hello') × (server_hello ≡ server_hello'))
        ⊎ Collide crates.sha.sha256
            (protocol_id ++ hello ++ server_hello)
            (protocol_id ++ hello' ++ server_hello')
  complete-Binding drawn bundle client hello server_hello verify keys keys' server server_random
        hello' ratchet_sk server_hello' sign sent completed answered same size =
      let own : keys.transcript_hash ≡ crates.sha.sha256 (protocol_id ++ hello ++ server_hello) =
        complete-hash client server_hello verify keys completed
        ∙ ap (λ t. crates.sha.sha256 (t ++ server_hello))
            (initiate-transcript drawn bundle client hello sent) in
      let other : keys'.transcript_hash
          ≡ crates.sha.sha256 (protocol_id ++ hello' ++ server_hello') =
        respond-hash server server_random hello' ratchet_sk server_hello' sign keys' answered in
      elim (digest-inverse crates.sha.sha256 (protocol_id ++ hello ++ server_hello)
        (protocol_id ++ hello' ++ server_hello') (sym own ∙ same ∙ other)) [
          | inl text ↦ inl (
              append-inverse hello server_hello hello' server_hello' size
                (prefix-inverse protocol_id (hello ++ server_hello) (hello' ++ server_hello') text))
          | inr clash ↦ inr clash
        ]
