-- ===== src/Handshake/State.antt =====
-- crates/ullm-handshake/src/state.rs: the client's and the server's steps. The random bytes that
-- the code draws are arguments, and so are the callbacks that sign and verify.
pub mod Agree
pub mod Binding
use ullm.Prelude.{ℕ, List, ◌++◌, not, ◌==◌}
use ullm.Core.{Error, Result, ok, ok_or, expect, err, refuse_if, protocol_version, ◌>>◌, ◌>>=◌}
use ullm.Crypto.Kdf.{Hkdf, derive_root}
use ullm.Crypto.Kex.{
  Exchange, Encapsulated, hybrid_encap, hybrid_decap, ml_kem_pk_from_bytes, ml_kem_ct_from_bytes,
}
use ullm.Crypto.Ratchet.{derive_initial_keys}
use ullm.Core.Postcard.{Postcard}
use ullm.Core.Sha.{Sha}
use ullm.Handshake.Messages.{
  ClientHello, ServerHello, IsClientHello, IsServerHello, PreKeyBundle, Transcript, encode, decode,
  new_transcript, update, hash,
}
use ullm.Handshake.Messages.Suite.{default_phase1, validate}

-- The crates that the handshake calls.
pub record Crates : Type 0 where
  pub hkdf : Hkdf
  pub kex : Exchange
  pub sha : Sha
  pub client_hello : Postcard ClientHello IsClientHello
  pub server_hello : Postcard ServerHello IsServerHello

pub record EstablishedKeys : Type 0 where
  pub root : List ℕ
  pub c2s_chain : List ℕ
  pub s2c_chain : List ℕ
  pub nonce_salt : List ℕ
  pub transcript_hash : List ℕ
  pub report_data : List ℕ
  pub server_ratchet_pk : List ℕ
  pub client_ratchet_pk : List ℕ
  pub server_attestation_evidence : List ℕ

pub record ClientHandshake : Type 0 where
  pub transcript : Transcript
  pub client_random : List ℕ
  pub attestation_nonce : List ℕ
  pub hybrid : List ℕ
  pub client_ratchet_sk : List ℕ

pub record ServerHandshake : Type 0 where
  pub spk_sk_x25519 : List ℕ
  pub pq_sk_mlkem : List ℕ

-- What the client draws, in the order in which it draws.
pub record Drawn : Type 0 where
  pub coins : List ℕ
  pub client_x25519_sk : List ℕ
  pub client_random : List ℕ
  pub attestation_nonce : List ℕ
  pub client_ratchet_sk : List ℕ

unfoldable pub compute_report_data : Sha → List ℕ → List ℕ → List ℕ → List ℕ
compute_report_data sha attestation_nonce server_x25519_pk hybrid =
    sha.sha512 (attestation_nonce ++ server_x25519_pk ++ sha.sha256 hybrid)

-- The two messages, from what their senders hold.
unfoldable pub client_hello_of : Exchange → Drawn → Encapsulated → ClientHello
client_hello_of kex drawn hybrid = record {
  version = protocol_version;
  client_random = drawn.client_random;
  attestation_nonce = drawn.attestation_nonce;
  client_x25519_pk = hybrid.client_x25519_pk;
  client_mlkem_ct = hybrid.mlkem_ct;
  client_ratchet_pk = kex.public_key drawn.client_ratchet_sk;
  cipher_suite = default_phase1;
}

unfoldable pub server_hello_of : List ℕ → List ℕ → List ℕ → List ℕ → ServerHello
server_hello_of server_random server_ratchet_pk evidence signature = record {
  version = protocol_version;
  server_random = server_random;
  server_x25519_pk = server_ratchet_pk;
  attestation_evidence = evidence;
  signature = signature;
}

-- The version check that both sides make.
unfoldable pub check_version : ℕ → Result (Unit {0})
check_version got =
    refuse_if (not (got == protocol_version)) (Error.bad_version got protocol_version)

module _ (crates : Crates) where
  -- The ends of `complete` and `respond`: the keys from the whole transcript.
  unfoldable pub establish :
      List ℕ → List ℕ → List ℕ → List ℕ → List ℕ → List ℕ → Result EstablishedKeys
  unfolding derive_root
  establish transcript_hash hybrid report_data server_ratchet_pk client_ratchet_pk evidence = do
    let root = derive_root crates.hkdf transcript_hash hybrid
    keys ← derive_initial_keys crates.hkdf root
    ok (record {
      root = root;
      c2s_chain = keys.c2s_chain;
      s2c_chain = keys.s2c_chain;
      nonce_salt = keys.nonce_salt;
      transcript_hash = transcript_hash;
      report_data = report_data;
      server_ratchet_pk = server_ratchet_pk;
      client_ratchet_pk = client_ratchet_pk;
      server_attestation_evidence = evidence;
    })

  unfoldable pub initiate : Drawn → PreKeyBundle → Result (ClientHandshake × List ℕ)
  initiate drawn bundle = do
    pq_pk ← ok_or Error.other (ml_kem_pk_from_bytes bundle.pq_pk_mlkem)
    hybrid ← hybrid_encap crates.kex drawn.coins drawn.client_x25519_sk pq_pk bundle.spk_pk_x25519
    hello_bytes ← encode crates.client_hello (client_hello_of crates.kex drawn hybrid)
    ok (
      record {
        transcript = update new_transcript hello_bytes;
        client_random = drawn.client_random;
        attestation_nonce = drawn.attestation_nonce;
        hybrid = hybrid.secret;
        client_ratchet_sk = drawn.client_ratchet_sk;
      },
      hello_bytes,
    )

  unfoldable pub complete :
      ClientHandshake → List ℕ → (List ℕ → List ℕ → Result (Unit {0})) → Result EstablishedKeys
  unfolding check_version
  complete client server_hello_bytes verify_signature = do
    server_hello ← decode crates.server_hello server_hello_bytes
    check_version server_hello.version
    verify_signature (hash crates.sha client.transcript) server_hello.signature
    let transcript_hash = hash crates.sha (update client.transcript server_hello_bytes)
    let report_data =
        compute_report_data crates.sha client.attestation_nonce server_hello.server_x25519_pk
          client.hybrid
    establish transcript_hash client.hybrid report_data server_hello.server_x25519_pk
        (crates.kex.public_key client.client_ratchet_sk) server_hello.attestation_evidence

  unfoldable pub respond :
      ServerHandshake
      → List ℕ
      → List ℕ
      → List ℕ
      → (List ℕ → List ℕ → Result (List ℕ × List ℕ))
      → Result (List ℕ × EstablishedKeys)
  unfolding check_version
  respond server server_random client_hello_bytes ratchet_sk make_evidence_and_sig = do
    client_hello ← decode crates.client_hello client_hello_bytes
    check_version client_hello.version
    validate client_hello.cipher_suite
    mlkem_ct ← ok_or Error.other (ml_kem_ct_from_bytes client_hello.client_mlkem_ct)
    hybrid ←
        hybrid_decap crates.kex server.pq_sk_mlkem server.spk_sk_x25519 mlkem_ct
          client_hello.client_x25519_pk
    let server_ratchet_pk = crates.kex.public_key ratchet_sk
    let report_data =
        compute_report_data crates.sha client_hello.attestation_nonce server_ratchet_pk hybrid
    let transcript = update new_transcript client_hello_bytes
    (evidence, signature) ← make_evidence_and_sig report_data (hash crates.sha transcript)
    server_hello_bytes ←
        encode crates.server_hello
          (server_hello_of server_random server_ratchet_pk evidence signature)
    let transcript_hash = hash crates.sha (update transcript server_hello_bytes)
    keys ←
        establish transcript_hash hybrid report_data server_ratchet_pk
          client_hello.client_ratchet_pk evidence
    ok (server_hello_bytes, keys)
