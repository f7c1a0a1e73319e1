-- ===== src/Core/Suites.antt =====
-- crates/ullm-core/src/version.rs: the identifiers of cipher suites, and their wire values.
use ullm.Prelude.{ℕ, ◌≡◌, Option, none, some, ◌==◌, if◌then◌else◌, arith}

pub data KemId : Type 0 where
  x25519_ml_kem768 : KemId

unfoldable pub kem_u16 : KemId → ℕ
kem_u16 x25519_ml_kem768 = 0x11EC

unfoldable pub kem_from_u16 : ℕ → Option KemId
kem_from_u16 v = if v == 0x11EC then some x25519_ml_kem768 else none

pub data AeadId : Type 0 where
  x_cha_cha20_poly1305 aes256_gcm_siv : AeadId

unfoldable pub aead_u8 : AeadId → ℕ
aead_u8 x_cha_cha20_poly1305 = 0x01
aead_u8 aes256_gcm_siv = 0x02

unfoldable pub aead_from_u8 : ℕ → Option AeadId
aead_from_u8 v =
    if v == 0x01 then some x_cha_cha20_poly1305 else if v == 0x02 then some aes256_gcm_siv else none

pub data HashId : Type 0 where
  sha256 sha384 : HashId

unfoldable pub hash_u8 : HashId → ℕ
hash_u8 sha256 = 0x01
hash_u8 sha384 = 0x02

unfoldable pub hash_from_u8 : ℕ → Option HashId
hash_from_u8 v = if v == 0x01 then some sha256 else if v == 0x02 then some sha384 else none

kem_u16-kem_from_u16 : (v : ℕ) (id : KemId) → kem_from_u16 v ≡ some id → kem_u16 id ≡ v
unfolding kem_u16 kem_from_u16
kem_u16-kem_from_u16 v id h = ground (arith, h)

aead_u8-aead_from_u8 : (v : ℕ) (id : AeadId) → aead_from_u8 v ≡ some id → aead_u8 id ≡ v
unfolding aead_u8 aead_from_u8
aead_u8-aead_from_u8 v id h = ground (arith, h)

hash_u8-hash_from_u8 : (v : ℕ) (id : HashId) → hash_from_u8 v ≡ some id → hash_u8 id ≡ v
unfolding hash_u8 hash_from_u8
hash_u8-hash_from_u8 v id h = ground (arith, h)
