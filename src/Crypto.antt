-- ===== src/Crypto.antt =====
-- crates/ullm-crypto/src: the AEAD wrapper, key derivation, the hybrid key exchange and the
-- ratchets.
pub mod Aead
pub mod Nonce
pub mod Kdf
pub mod Kex
pub mod Ratchet
pub mod Tests
