-- ===== src/Crypto/Aead.antt =====
-- crates/ullm-crypto/src/aead.rs: the wrapper over the crate `chacha20poly1305`.
use ullm.Prelude.{ℕ, ◌+◌, ◌^◌, ◌≤◌, ◌≡◌, Option, some, List, length}
use ullm.Core.{Error, Result, expect, ok_or}

-- XChaCha20-Poly1305 as the crate documents it, over key, nonce, associated data and text.
-- Encryption is deterministic, answers on every text below its limit and adds a tag of 16 bytes;
-- decryption undoes it, and accepts nothing but what encryption gives.
pub record Cipher : Type 0 where
  pub encrypt : List ℕ → List ℕ → List ℕ → List ℕ → Option (List ℕ)
  pub decrypt : List ℕ → List ℕ → List ℕ → List ℕ → Option (List ℕ)
  pub encrypts :
      (k n aad m : List ℕ)
      → length m ≤ 2 ^ 37
      → (c : List ℕ) × (encrypt k n aad m ≡ some c) × (length c ≡ length m + 16)
  pub decrypt-encrypt :
      (k n aad m c : List ℕ) → encrypt k n aad m ≡ some c → decrypt k n aad c ≡ some m
  pub encrypt-decrypt :
      (k n aad m c : List ℕ) → decrypt k n aad c ≡ some m → encrypt k n aad m ≡ some c

unfoldable pub aead_seal : Cipher → List ℕ → List ℕ → List ℕ → List ℕ → Result (List ℕ)
aead_seal cipher key nonce aad plaintext = expect (cipher.encrypt key nonce aad plaintext)

unfoldable pub aead_open : Cipher → List ℕ → List ℕ → List ℕ → List ℕ → Result (List ℕ)
aead_open cipher key nonce aad ciphertext =
    ok_or Error.decrypt (cipher.decrypt key nonce aad ciphertext)
