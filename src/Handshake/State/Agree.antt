-- ===== src/Handshake/State/Agree.antt =====
-- Client and server end the handshake with the same keys, and no call fails.
use ullm.Prelude.{ℕ, ◌≡◌, refl, List, some, length, arith}
use ullm.Core.{Result, ok}
use ullm.Crypto.Kex.{
  ml_kem_keypair, hybrid_decap-hybrid_encap, hybrid_encap-IsSized, ml_kem_pk_from_bytes,
  ml_kem_ct_from_bytes, Encapsulated,
}
use ullm.Crypto.Kdf.{extract}
use ullm.Crypto.Ratchet.Agree.{derive_initial_keys-ok}
use ullm.Handshake.Messages.{
  PreKeyBundle, IsClientHello, IsServerHello, encode, decode, new_transcript, update, hash,
}
use ullm.Handshake.Messages.Suite.{default_phase1, accepts-default_phase1}
use ullm.Handshake.State.{
  Crates, EstablishedKeys, ClientHandshake, Drawn, establish, initiate, complete, respond,
  client_hello_of, server_hello_of, compute_report_data, check_version,
}

-- The keys of a finished handshake have the sizes of their types.
pub record IsEstablished (keys : EstablishedKeys) : Type 0 where
  pub root_32 : length keys.root ≡ 32
  pub c2s_32 : length keys.c2s_chain ≡ 32
  pub s2c_32 : length keys.s2c_chain ≡ 32
  pub salt_24 : length keys.nonce_salt ≡ 24

-- The bundle carries the public keys of the server's secrets.
pub record IsBundleOf (crates : Crates) (seed spk_sk : List ℕ) (bundle : PreKeyBundle)
    : Type 0 where
  pub pq_pk : bundle.pq_pk_mlkem ≡ (ml_kem_keypair crates.kex seed).1
  pub spk_pk : bundle.spk_pk_x25519 ≡ crates.kex.public_key spk_sk

-- What the client draws for its two public fields are arrays of 32 bytes.
pub record IsDrawn (drawn : Drawn) : Type 0 where
  pub random_32 : length drawn.client_random ≡ 32
  pub nonce_32 : length drawn.attestation_nonce ≡ 32

module _ (crates : Crates) where
  establish-ok :
      (transcript_hash hybrid report_data server_pk client_pk evidence : List ℕ)
      → (keys : EstablishedKeys) × (establish crates transcript_hash hybrid report_data server_pk
            client_pk evidence
          ≡ ok keys)
        × IsEstablished keys
  unfolding establish extract
  establish-ok transcript_hash hybrid report_data server_pk client_pk evidence =
      let root = crates.hkdf.hkdf_extract transcript_hash hybrid in
      let size = crates.hkdf.length-extract transcript_hash hybrid in
      let (keys, derived, sized) = derive_initial_keys-ok crates.hkdf root size in
      (
        record {
          root = root;
          c2s_chain = keys.c2s_chain;
          s2c_chain = keys.s2c_chain;
          nonce_salt = keys.nonce_salt;
          transcript_hash = transcript_hash;
          report_data = report_data;
          server_ratchet_pk = server_pk;
          client_ratchet_pk = client_pk;
          server_attestation_evidence = evidence;
        },
        rw derived refl,
        record {
          root_32 = size;
          c2s_32 = sized.c2s_32;
          s2c_32 = sized.s2c_32;
          salt_24 = sized.salt_24;
        },
      )

  pk_from_bytes-ok : (b : List ℕ) → length b ≡ 1184 → ml_kem_pk_from_bytes b ≡ some b
  unfolding ml_kem_pk_from_bytes
  pk_from_bytes-ok b size = ground (arith, size)

  ct_from_bytes-ok : (b : List ℕ) → length b ≡ 1088 → ml_kem_ct_from_bytes b ≡ some b
  unfolding ml_kem_ct_from_bytes
  ct_from_bytes-ok b size = ground (arith, size)

  client_hello_of-IsClientHello :
      (drawn : Drawn) (out : Encapsulated)
      → length out.client_x25519_pk ≡ 32
      → IsDrawn drawn
      → IsClientHello (client_hello_of crates.kex drawn out)
  unfolding client_hello_of default_phase1
  client_hello_of-IsClientHello drawn out pk_32 is_drawn = record {
    version_u8 = omega arith;
    random_32 = is_drawn.random_32;
    nonce_32 = is_drawn.nonce_32;
    x25519_32 = pk_32;
    ratchet_32 = crates.kex.length-public_key drawn.client_ratchet_sk;
    kem_u16 = omega arith;
    aead_u8 = omega arith;
    hash_u8 = omega arith;
  }

  server_hello_of-IsServerHello :
      (server_random ratchet_sk evidence signature : List ℕ)
      → length server_random ≡ 32
      → length signature ≡ 64
      → IsServerHello
          (server_hello_of server_random (crates.kex.public_key ratchet_sk) evidence signature)
  unfolding server_hello_of
  server_hello_of-IsServerHello server_random ratchet_sk evidence signature random_32 signature_64 =
      record {
        version_u8 = omega arith;
        random_32 = random_32;
        x25519_32 = crates.kex.length-public_key ratchet_sk;
        signature_64 = signature_64;
      }

  -- Where the bundle carries the public keys of the server's secrets, the drawn values have their
  -- lengths, and every evidence comes with a signature of 64 bytes that the client accepts, the
  -- client's hello, the server's answer and the client's completion all succeed, and both sides
  -- hold the same keys, of their sizes, the same transcript hash and the same report data.
  pub complete-respond-initiate :
      (seed spk_sk ratchet_sk server_random : List ℕ) (drawn : Drawn) (bundle : PreKeyBundle)
      (sign : List ℕ → List ℕ → Result (List ℕ × List ℕ))
      (verify : List ℕ → List ℕ → Result (Unit {0}))
      → IsBundleOf crates seed spk_sk bundle
      → IsDrawn drawn
      → length server_random ≡ 32
      → ((report_data transcript_hash : List ℕ)
          → (evidence : List ℕ) × (signature : List ℕ) × (sign report_data transcript_hash
              ≡ ok (evidence, signature))
            × (length signature ≡ 64)
            × (verify transcript_hash signature ≡ ok tt))
      → (client : ClientHandshake) × (hello : List ℕ) × (server_hello : List ℕ)
        × (keys : EstablishedKeys) × (initiate crates drawn bundle ≡ ok (client, hello))
        × (respond crates
              (record { spk_sk_x25519 = spk_sk; pq_sk_mlkem = (ml_kem_keypair crates.kex seed).0 })
              server_random
              hello
              ratchet_sk
              sign
            ≡ ok (server_hello, keys))
        × (complete crates client server_hello verify ≡ ok keys)
        × IsEstablished keys
  unfolding initiate respond complete encode decode hash check_version client_hello_of
      server_hello_of ml_kem_keypair
  complete-respond-initiate seed spk_sk ratchet_sk server_random drawn bundle sign verify is_bundle
        is_drawn random_32 honest =
      let kex = crates.kex in
      let (out, sent, received, _) =
        hybrid_decap-hybrid_encap kex seed drawn.coins drawn.client_x25519_sk spk_sk in
      let (ct_1088, pk_32) =
        hybrid_encap-IsSized kex drawn.coins drawn.client_x25519_sk (ml_kem_keypair kex seed).1
          (kex.public_key spk_sk) out sent in
      let (hello_bytes, wrote, read) =
        crates.client_hello.round_trip (client_hello_of kex drawn out)
          (client_hello_of-IsClientHello drawn out pk_32 is_drawn) in
      let server_pk = kex.public_key ratchet_sk in
      let report_data =
        compute_report_data crates.sha drawn.attestation_nonce server_pk out.secret in
      let transcript = update new_transcript hello_bytes in
      let (evidence, signature, signed, signature_64, verified) =
        honest report_data (hash crates.sha transcript) in
      let (server_hello_bytes, wrote', read') =
        crates.server_hello.round_trip (server_hello_of server_random server_pk evidence signature)
          (server_hello_of-IsServerHello server_random ratchet_sk evidence signature random_32
            signature_64) in
      let (keys, established, sized) =
        establish-ok (hash crates.sha (update transcript server_hello_bytes)) out.secret report_data
          server_pk (kex.public_key drawn.client_ratchet_sk) evidence in
      (
        record {
          transcript = transcript;
          client_random = drawn.client_random;
          attestation_nonce = drawn.attestation_nonce;
          hybrid = out.secret;
          client_ratchet_sk = drawn.client_ratchet_sk;
        },
        hello_bytes,
        server_hello_bytes,
        keys,
        rw
            (
              is_bundle.pq_pk,
              is_bundle.spk_pk,
              pk_from_bytes-ok (ml_kem_keypair kex seed).1 (kex.length-mlkem_pk seed),
              sent,
              wrote,
            )
            refl,
        rw
            (
              read,
              accepts-default_phase1,
              ct_from_bytes-ok out.mlkem_ct ct_1088,
              received,
              signed,
              wrote',
              established,
            )
            refl,
        rw (read', verified, established) refl,
        sized,
      )
