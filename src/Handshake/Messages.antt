-- ===== src/Handshake/Messages.antt =====
-- crates/ullm-handshake/src/messages.rs and transcript.rs.
pub mod Suite
use ullm.Prelude.{ℕ, ◌<◌, ◌^◌, ◌≡◌, refl, List, [], ◌∷◌, ◌++◌, Option, some, length, not, ltb, ◌==◌}
use ullm.Core.{Error, Result, ok, ok_or, expect, refuse_if, ◌>>◌}
use ullm.Core.Postcard.{Postcard}
use ullm.Core.Sha.{Sha}
use ullm.Handshake.Messages.Suite.{CipherSuite}

unfoldable pub encode :
    {T : Type 0} {IsValue : T → Type 0} → Postcard T IsValue → T → Result (List ℕ)
encode postcard value = ok_or Error.serde (postcard.to_allocvec value)

unfoldable pub decode : {T : Type 0} {IsValue : T → Type 0} → Postcard T IsValue → List ℕ → Result T
decode postcard bytes = ok_or Error.serde (postcard.from_bytes bytes)

pub record PreKeyBundle : Type 0 where
  pub id_pk : List ℕ
  pub spk_pk_x25519 : List ℕ
  pub pq_pk_mlkem : List ℕ
  pub attestation_evidence : List ℕ
  pub signature : List ℕ

unfoldable pub validate_structural : PreKeyBundle → Result (Unit {0})
validate_structural bundle = do
  refuse_if (not (length bundle.pq_pk_mlkem == 1184)) Error.bad_cipher_suite
  refuse_if (ltb 8192 (length bundle.attestation_evidence)) Error.other

pub record ClientHello : Type 0 where
  pub version : ℕ
  pub client_random : List ℕ
  pub attestation_nonce : List ℕ
  pub client_x25519_pk : List ℕ
  pub client_mlkem_ct : List ℕ
  pub client_ratchet_pk : List ℕ
  pub cipher_suite : CipherSuite

pub record ServerHello : Type 0 where
  pub version : ℕ
  pub server_random : List ℕ
  pub server_x25519_pk : List ℕ
  pub attestation_evidence : List ℕ
  pub signature : List ℕ

-- The values of the two types: a list stands for an array of its length, a number for an integer
-- in range.
pub record IsClientHello (hello : ClientHello) : Type 0 where
  pub version_u8 : hello.version < 256
  pub random_32 : length hello.client_random ≡ 32
  pub nonce_32 : length hello.attestation_nonce ≡ 32
  pub x25519_32 : length hello.client_x25519_pk ≡ 32
  pub ratchet_32 : length hello.client_ratchet_pk ≡ 32
  pub kem_u16 : hello.cipher_suite.kem < 2 ^ 16
  pub aead_u8 : hello.cipher_suite.aead < 256
  pub hash_u8 : hello.cipher_suite.hash < 256

pub record IsServerHello (hello : ServerHello) : Type 0 where
  pub version_u8 : hello.version < 256
  pub random_32 : length hello.server_random ≡ 32
  pub x25519_32 : length hello.server_x25519_pk ≡ 32
  pub signature_64 : length hello.signature ≡ 64

-- The transcript: the hasher is the text that it was given.
pub record Transcript : Type 0 where
  pub hashed : List ℕ

abbrev pub protocol_id : List ℕ
protocol_id = 85 ∷ 76 ∷ 76 ∷ 77 ∷ 45 ∷ 118 ∷ 49 ∷ []

unfoldable pub new_transcript : Transcript
new_transcript = record { hashed = protocol_id }

unfoldable pub update : Transcript → List ℕ → Transcript
update t bytes = record { hashed = t.hashed ++ bytes }

unfoldable pub hash : Sha → Transcript → List ℕ
hash sha t = sha.sha256 t.hashed
