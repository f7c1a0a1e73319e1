-- ===== src/Overlay/Layer.antt =====
-- crates/ullm-overlay/src/layer.rs: one onion layer, sealed and peeled, and the nested layers of a
-- chain of relays.
pub mod Peel
use ullm.Prelude.{
  ℕ, suc, ◌+◌, ◌≤◌, ◌<◌, ◌≡◌, List, [], ◌∷◌, ◌++◌, Option, none, some, length, reverse,
}
use ullm.Core.{Error, Result, ok, err, ok_or, expect, ◌>>=◌}
use ullm.Core.Postcard.{Postcard}
use ullm.Crypto.Aead.{Cipher}
use ullm.Crypto.Kdf.{Hkdf}
use ullm.Crypto.Kex.{Exchange}

pub record OnionLayer : Type 0 where
  pub ephemeral_pk : List ℕ
  pub ciphertext : List ℕ

pub record LayerInner : Type 0 where
  pub next_hop : Option (List ℕ)
  pub inner : List ℕ

abbrev pub IsOnionLayer : OnionLayer → Type 0
IsOnionLayer layer = length layer.ephemeral_pk ≡ 32

abbrev pub IsLayerInner : LayerInner → Type 0
IsLayerInner inner = Unit {0}

abbrev pub label_length : Option (List ℕ) → ℕ
label_length none = 0
label_length (some label) = length label

-- The crates that the overlay calls, `cipher` standing for ChaCha20-Poly1305. `postcard` writes a
-- field as its bytes behind a few bytes of length, and reads no field that is as long as its
-- input; the tag makes a ciphertext 16 bytes longer than its text.
pub record Crates : Type 0 where
  pub kex : Exchange
  pub hkdf : Hkdf
  pub cipher : Cipher
  pub layer : Postcard OnionLayer IsOnionLayer
  pub layer_inner : Postcard LayerInner IsLayerInner
  pub layer_size :
      (v : OnionLayer) (b : List ℕ)
      → IsOnionLayer v
      → layer.to_allocvec v ≡ some b
      → length b ≤ length v.ciphertext + 48
  pub layer_inner_size :
      (v : LayerInner) (b : List ℕ)
      → layer_inner.to_allocvec v ≡ some b
      → length b ≤ label_length v.next_hop + length v.inner + 32
  pub layer_fits :
      (v : OnionLayer) (b : List ℕ) → layer.from_bytes b ≡ some v → length v.ciphertext < length b
  pub layer_inner_fits :
      (v : LayerInner) (b : List ℕ) → layer_inner.from_bytes b ≡ some v → length v.inner < length b
  pub tag_16 : (k n aad m c : List ℕ) → cipher.decrypt k n aad c ≡ some m → length c ≡ length m + 16

abbrev pub aead_info : List ℕ
aead_info = 85 ∷ 76 ∷ 76 ∷ 77 ∷ 45 ∷ 111 ∷ 118 ∷ 101 ∷ 114 ∷ 108 ∷ 97 ∷ 121 ∷ 45 ∷ 118 ∷ 49 ∷ []

abbrev pub aead_nonce : List ℕ
aead_nonce = 85 ∷ 76 ∷ 76 ∷ 77 ∷ 111 ∷ 110 ∷ 105 ∷ 111 ∷ 110 ∷ 45 ∷ 118 ∷ 49 ∷ []

module _ (crates : Crates) where
  unfoldable pub derive_aead_key : List ℕ → List ℕ → Result (List ℕ)
  derive_aead_key shared ephemeral_pk =
      expect (crates.hkdf.hkdf_expand (crates.hkdf.hkdf_extract ephemeral_pk shared) aead_info 32)

  -- The body of the loop of `wrap_layers`: one more layer, for one relay's public key.
  unfoldable pub wrap_one : List ℕ → List ℕ → Option (List ℕ) → List ℕ → Result (List ℕ)
  wrap_one ephemeral relay_pk next_hop_label current = do
    let ephemeral_pk = crates.kex.public_key ephemeral
    let shared = crates.kex.diffie_hellman ephemeral relay_pk
    key ← derive_aead_key shared ephemeral_pk
    let inner : LayerInner = record { next_hop = next_hop_label; inner = current }
    plaintext ← ok_or Error.serde (crates.layer_inner.to_allocvec inner)
    ct ← ok_or Error.other (crates.cipher.encrypt key aead_nonce ephemeral_pk plaintext)
    let layer : OnionLayer = record { ephemeral_pk = ephemeral_pk; ciphertext = ct }
    ok_or Error.serde (crates.layer.to_allocvec layer)

  -- The loop, over the chain from its exit on, with the secrets that the code draws.
  unfoldable pub wrap_loop :
      List (List ℕ × List ℕ)
      → (ℕ → List ℕ)
      → ℕ
      → Option (List ℕ) × List ℕ
      → Result (Option (List ℕ) × List ℕ)
  wrap_loop [] drawn i at = ok at
  wrap_loop ((label, relay_pk) ∷ relays) drawn i (next_hop_label, current) = do
    wrapped ← wrap_one (drawn i) relay_pk next_hop_label current
    wrap_loop relays drawn (suc i) (some label, wrapped)

  unfoldable pub wrap_layers : (ℕ → List ℕ) → List (List ℕ × List ℕ) → List ℕ → Result (List ℕ)
  wrap_layers drawn [] destination_payload = err Error.other
  wrap_layers drawn (relay ∷ relays) destination_payload = do
    (next_hop_label, current) ←
        wrap_loop (reverse (relay ∷ relays)) drawn 0 (none, destination_payload)
    ok current

  unfoldable pub peel_layer : List ℕ → List ℕ → Result (Option (List ℕ) × List ℕ)
  peel_layer relay_secret layer_bytes = do
    layer ← ok_or Error.serde (crates.layer.from_bytes layer_bytes)
    let shared = crates.kex.diffie_hellman relay_secret layer.ephemeral_pk
    key ← derive_aead_key shared layer.ephemeral_pk
    plaintext ←
        ok_or Error.decrypt
          (crates.cipher.decrypt key aead_nonce layer.ephemeral_pk layer.ciphertext)
    inner ← ok_or Error.serde (crates.layer_inner.from_bytes plaintext)
    ok (inner.next_hop, inner.inner)
