-- ===== src/Overlay/Layer/Peel.antt =====
-- A relay peels the layer that was made for it, and every peeled text is shorter.
use ullm.Prelude.{
  ℕ, ◌+◌, ◌^◌, ◌≤◌, ◌<◌, ◌≡◌, ◌⊎◌, refl, ap, List, Option, length, arith, Option-cases, inl, inr,
}
use ullm.Core.{Error, ok, err}
use ullm.Overlay.Layer.{
  Crates, OnionLayer, LayerInner, label_length, aead_info, aead_nonce, derive_aead_key, wrap_one,
  peel_layer,
}

module _ (crates : Crates) where
  derive_aead_key-ok :
      (shared pk : List ℕ) → (key : List ℕ) × (derive_aead_key crates shared pk ≡ ok key)
  unfolding derive_aead_key
  derive_aead_key-ok shared pk =
      let prk = crates.hkdf.hkdf_extract pk shared in
      let (key, expanded, _) =
        crates.hkdf.expands prk aead_info 32 (crates.hkdf.length-extract pk shared) (omega arith) in
      (key, rw expanded refl)

  -- The layer sealed for a relay's public key, over a text that the cipher takes, is at most 96
  -- bytes longer than its text and label, and the relay peels it to the same label and text.
  pub peel_layer-wrap_one :
      (ephemeral relay_sk : List ℕ) (next_hop : Option (List ℕ)) (current : List ℕ)
      → label_length next_hop + length current + 32 ≤ 2 ^ 37
      → (b : List ℕ) × (wrap_one crates ephemeral (crates.kex.public_key relay_sk) next_hop current
          ≡ ok b)
        × (peel_layer crates relay_sk b ≡ ok (next_hop, current))
        × (length b ≤ label_length next_hop + length current + 96)
  unfolding wrap_one peel_layer
  peel_layer-wrap_one ephemeral relay_sk next_hop current fits =
      let kex = crates.kex in
      let pk = kex.public_key ephemeral in
      let shared = kex.diffie_hellman ephemeral (kex.public_key relay_sk) in
      let (key, derived) = derive_aead_key-ok shared pk in
      let inner : LayerInner = record { next_hop = next_hop; inner = current } in
      let (plaintext, wrote, read) = crates.layer_inner.round_trip inner tt in
      let size = crates.layer_inner_size inner plaintext wrote in
      let (ct, sealed, tagged) =
        crates.cipher.encrypts key aead_nonce pk plaintext (omega (arith, size, fits)) in
      let opened = crates.cipher.decrypt-encrypt key aead_nonce pk plaintext ct sealed in
      let layer : OnionLayer = record { ephemeral_pk = pk; ciphertext = ct } in
      let (b, wrote', read') = crates.layer.round_trip layer (kex.length-public_key ephemeral) in
      (
        b,
        rw (derived, wrote, sealed, wrote') refl,
        rw (read', kex.agrees relay_sk ephemeral, derived, opened, read) refl,
        omega (
          arith,
          size,
          tagged,
          crates.layer_size layer b (kex.length-public_key ephemeral) wrote',
        ),
      )

  -- A peeling never panics: it peels the layer, or refuses what it cannot read or decrypt.
  pub peel_layer-cases :
      (relay_sk b : List ℕ)
      → ((peeled : Option (List ℕ) × List ℕ) × (peel_layer crates relay_sk b ≡ ok peeled))
        ⊎ (peel_layer crates relay_sk b ≡ err Error.serde)
        ⊎ (peel_layer crates relay_sk b ≡ err Error.decrypt)
  unfolding peel_layer
  peel_layer-cases relay_sk b = elim (Option-cases (crates.layer.from_bytes b)) [
    | inl none_read ↦ inr (inl (rw none_read refl))
    | inr (layer, read) ↦
        let shared = crates.kex.diffie_hellman relay_sk layer.ephemeral_pk in
        let (key, derived) = derive_aead_key-ok shared layer.ephemeral_pk in
        elim (Option-cases
          (crates.cipher.decrypt key aead_nonce layer.ephemeral_pk layer.ciphertext)) [
            | inl sealed ↦ inr (inr (rw (read, derived, sealed) refl))
            | inr (m, opened) ↦ elim (Option-cases (crates.layer_inner.from_bytes m)) [
              | inl none_read' ↦ inr (inl (rw (read, derived, opened, none_read') refl))
              | inr (v, read') ↦ inl ((v.next_hop, v.inner), rw (read, derived, opened, read') refl)
            ]
          ]
  ]

  -- A peeled text is shorter than the layer.
  pub peel_layer-lt :
      (relay_sk b inner : List ℕ) (next_hop : Option (List ℕ))
      → peel_layer crates relay_sk b ≡ ok (next_hop, inner)
      → length inner < length b
  unfolding peel_layer
  peel_layer-lt relay_sk b inner next_hop h = elim (Option-cases (crates.layer.from_bytes b)) [
    | inl none_read ↦ absurd (ground (arith, h, none_read))
    | inr (layer, read) ↦
        let shared = crates.kex.diffie_hellman relay_sk layer.ephemeral_pk in
        let (key, derived) = derive_aead_key-ok shared layer.ephemeral_pk in
        elim (Option-cases
          (crates.cipher.decrypt key aead_nonce layer.ephemeral_pk layer.ciphertext)) [
            | inl sealed ↦ absurd (ground (arith, h, read, derived, sealed))
            | inr (m, opened) ↦ elim (Option-cases (crates.layer_inner.from_bytes m)) [
              | inl none_read' ↦ absurd (ground (arith, h, read, derived, opened, none_read'))
              | inr (v, read') ↦
                  let same : v.inner ≡ inner = ground (arith, h, read, derived, opened, read') in
                  omega (
                    arith,
                    crates.layer_fits layer b read,
                    crates.tag_16 key aead_nonce layer.ephemeral_pk m layer.ciphertext opened,
                    crates.layer_inner_fits v m read',
                    ap length same,
                  )
            ]
          ]
  ]
