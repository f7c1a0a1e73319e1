-- ===== src/Crypto/Ratchet/Agree.antt =====
-- Both sides of a turn derive the same keys, and no derivation fails.
use ullm.Prelude.{ℕ, ◌≤◌, ◌≡◌, refl, List, ◌++◌, length, arith}
use ullm.Core.{ok}
use ullm.Crypto.Kdf.{
  Hkdf, extract, expand, info_record_c2s, info_record_s2c, info_nonce_salt, info_turn_ratchet,
  info_msg, info_chain,
}
use ullm.Crypto.Kex.{Exchange, ml_kem_keypair, hybrid_decap-hybrid_encap}
use ullm.Crypto.Ratchet.{
  InitialKeys, SymRatchet, TurnPayload, next_key, derive_initial_keys, derive_turn_root, step,
  initiate, respond,
}

-- Two chain keys of 32 bytes and a salt of 24.
pub record IsSized (keys : InitialKeys) : Type 0 where
  pub c2s_32 : length keys.c2s_chain ≡ 32
  pub s2c_32 : length keys.s2c_chain ≡ 32
  pub salt_24 : length keys.nonce_salt ≡ 24

module _ (hkdf : Hkdf) where
  expand-ok :
      (prk info : List ℕ) (n : ℕ)
      → length prk ≡ 32
      → n ≤ 8160
      → (out : List ℕ) × (expand hkdf prk info n ≡ ok out) × (length out ≡ n)
  unfolding expand
  expand-ok prk info n size le =
      let (out, expanded, fits) = hkdf.expands prk info n size le in (out, rw expanded refl, fits)

  -- From a chain key of 32 bytes the symmetric ratchet returns a frame key and a next chain key of
  -- 32 bytes.
  pub next_key-ok :
      (r : SymRatchet)
      → length r.chain ≡ 32
      → (r' : SymRatchet) × (key : List ℕ) × (next_key hkdf r ≡ ok (r', key))
        × (length r'.chain ≡ 32)
        × (length key ≡ 32)
  unfolding next_key
  next_key-ok r size =
      let (mk, made, mk_32) = expand-ok r.chain info_msg 32 size (omega arith) in
      let (nk, next, nk_32) = expand-ok r.chain info_chain 32 size (omega arith) in
      (record { chain = nk }, mk, rw (made, next) refl, nk_32, mk_32)

  pub derive_initial_keys-ok :
      (root : List ℕ)
      → length root ≡ 32
      → (keys : InitialKeys) × (derive_initial_keys hkdf root ≡ ok keys) × IsSized keys
  unfolding derive_initial_keys
  derive_initial_keys-ok root size =
      let (c2s, made, c2s_32) = expand-ok root info_record_c2s 32 size (omega arith) in
      let (s2c, made', s2c_32) = expand-ok root info_record_s2c 32 size (omega arith) in
      let (ns, made'', ns_24) = expand-ok root info_nonce_salt 24 size (omega arith) in
      (
        record { c2s_chain = c2s; s2c_chain = s2c; nonce_salt = ns },
        rw (made, made', made'') refl,
        record { c2s_32 = c2s_32; s2c_32 = s2c_32; salt_24 = ns_24 },
      )

  derive_turn_root-ok :
      (prev_root hybrid : List ℕ)
      → (root : List ℕ) × (keys : InitialKeys) × (derive_turn_root hkdf prev_root hybrid
          ≡ ok (root, keys))
        × (length root ≡ 32)
        × IsSized keys
  unfolding derive_turn_root extract
  derive_turn_root-ok prev_root hybrid =
      let root = hkdf.hkdf_extract prev_root (hybrid ++ info_turn_ratchet) in
      let size = hkdf.length-extract prev_root (hybrid ++ info_turn_ratchet) in
      let (keys, derived, sized) = derive_initial_keys-ok root size in
      (root, keys, rw derived refl, size, sized)

  module _ (kex : Exchange) where
    -- For a responder's key pairs, the initiator's turn succeeds, the responder's turn on the
    -- payload succeeds, and both hold the same root of 32 bytes and the same keys of their sizes.
    pub respond-initiate :
        (seed coins initiator_sk responder_sk prev_root : List ℕ)
        → (root : List ℕ) × (keys : InitialKeys) × (payload : TurnPayload) × (initiate hkdf kex
              coins initiator_sk prev_root
              (ml_kem_keypair kex seed).1
              (kex.public_key responder_sk)
            ≡ ok (root, keys, payload))
          × (respond hkdf kex prev_root (ml_kem_keypair kex seed).0 responder_sk payload
              ≡ ok (root, keys))
          × (length root ≡ 32)
          × IsSized keys
    unfolding initiate respond
    respond-initiate seed coins initiator_sk responder_sk prev_root =
        let (out, sent, received, _) =
          hybrid_decap-hybrid_encap kex seed coins initiator_sk responder_sk in
        let (root, keys, derived, size, sized) = derive_turn_root-ok prev_root out.secret in
        (
          root,
          keys,
          record { mlkem_ct = out.mlkem_ct; initiator_x25519_pk = out.client_x25519_pk },
          rw (sent, derived) refl,
          rw received derived,
          size,
          sized,
        )

    -- With each other's public key, both sides of a DH turn derive one root of 32 bytes and one
    -- set of keys, of their sizes.
    pub step-Agrees :
        (prev_root a b : List ℕ)
        → (root : List ℕ) × (keys : InitialKeys) × (step hkdf kex prev_root a (kex.public_key b)
            ≡ ok (root, keys))
          × (step hkdf kex prev_root b (kex.public_key a) ≡ ok (root, keys))
          × (length root ≡ 32)
          × IsSized keys
    unfolding step extract
    step-Agrees prev_root a b =
        let ikm = kex.diffie_hellman a (kex.public_key b) ++ info_turn_ratchet in
        let root = hkdf.hkdf_extract prev_root ikm in
        let size = hkdf.length-extract prev_root ikm in
        let (keys, derived, sized) = derive_initial_keys-ok root size in
        (root, keys, rw derived refl, rw (kex.agrees b a, derived) refl, size, sized)
