-- ===== src/Handshake/Messages/Suite.antt =====
-- `CipherSuite` of crates/ullm-handshake/src/messages.rs: what a peer may negotiate.
use ullm.Prelude.{ℕ, ◌≡◌, ◌≢◌, refl, ◌⊎◌, Bool, true, false, not, Option, none, some, arith}
use ullm.Core.{Error, Result, ok, err, refuse_if, ◌>>◌}
use ullm.Core.Suites.{
  KemId, AeadId, HashId, kem_u16, kem_from_u16, aead_u8, aead_from_u8, hash_u8, hash_from_u8,
}

pub record CipherSuite : Type 0 where
  pub kem : ℕ
  pub aead : ℕ
  pub hash : ℕ

unfoldable pub default_phase1 : CipherSuite
unfolding kem_u16 aead_u8 hash_u8
default_phase1 = record {
  kem = kem_u16 KemId.x25519_ml_kem768;
  aead = aead_u8 AeadId.x_cha_cha20_poly1305;
  hash = hash_u8 HashId.sha256;
}

is_none : {A : Type 0} → Option A → Bool
is_none none = true
is_none (some a) = false

-- The arms of the `match` on the AEAD.
check_aead : Option AeadId → Result (Unit {0})
check_aead (some AeadId.x_cha_cha20_poly1305) = ok tt
check_aead (some AeadId.aes256_gcm_siv) = err Error.bad_cipher_suite
check_aead none = err Error.bad_cipher_suite

is_sha256 : Option HashId → Bool
is_sha256 (some HashId.sha256) = true
is_sha256 (some HashId.sha384) = false
is_sha256 none = false

unfoldable pub validate : CipherSuite → Result (Unit {0})
unfolding is_none check_aead is_sha256
validate suite = do
  refuse_if (is_none (kem_from_u16 suite.kem)) Error.bad_cipher_suite
  refuse_if (is_none (hash_from_u8 suite.hash)) Error.bad_cipher_suite
  check_aead (aead_from_u8 suite.aead)
  refuse_if (not (is_sha256 (hash_from_u8 suite.hash))) Error.bad_cipher_suite

-- A cipher suite either is the default one and passes validation, or is another and is refused
-- with the error for a bad cipher suite.
pub validate-default_phase1 :
    (suite : CipherSuite)
    → ((suite ≡ default_phase1) × (validate suite ≡ ok tt))
      ⊎ ((suite ≢ default_phase1) × (validate suite ≡ err Error.bad_cipher_suite))
unfolding validate kem_from_u16 hash_from_u8 aead_from_u8 default_phase1 kem_u16 aead_u8 hash_u8
    is_none check_aead is_sha256
validate-default_phase1 suite = ground arith

pub accepts-default_phase1 : validate default_phase1 ≡ ok tt
unfolding validate kem_from_u16 hash_from_u8 aead_from_u8 default_phase1 kem_u16 aead_u8 hash_u8
    is_none check_aead is_sha256
accepts-default_phase1 = refl
