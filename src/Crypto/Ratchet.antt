-- ===== src/Crypto/Ratchet.antt =====
-- crates/ullm-crypto/src/ratchet.rs: the symmetric ratchet of frame keys and the ratchets of turns.
pub mod Agree
use ullm.Prelude.{ℕ, ◌≡◌, refl, List, ◌++◌}
use ullm.Core.{Result, ok, ◌>>=◌}
use ullm.Crypto.Kdf.{
  Hkdf, extract, expand, info_record_c2s, info_record_s2c, info_nonce_salt, info_chain, info_msg,
  info_turn_ratchet,
}
use ullm.Crypto.Kex.{Exchange, Encapsulated, hybrid_encap, hybrid_decap}

pub record InitialKeys : Type 0 where
  pub c2s_chain : List ℕ
  pub s2c_chain : List ℕ
  pub nonce_salt : List ℕ

pub record SymRatchet : Type 0 where
  pub chain : List ℕ

pub record TurnPayload : Type 0 where
  pub mlkem_ct : List ℕ
  pub initiator_x25519_pk : List ℕ

module _ (hkdf : Hkdf) where
  -- `ChainKey::ratchet`: the next chain key and the message key.
  unfoldable pub ratchet : List ℕ → Result (List ℕ × List ℕ)
  ratchet chain = do
    mk ← expand hkdf chain info_msg 32
    nk ← expand hkdf chain info_chain 32
    ok (nk, mk)

  unfoldable pub next_key : SymRatchet → Result (SymRatchet × List ℕ)
  unfolding ratchet
  next_key r = do (next, mk) ← ratchet r.chain; ok (record { chain = next }, mk)

  unfoldable pub derive_initial_keys : List ℕ → Result InitialKeys
  derive_initial_keys root = do
    c2s ← expand hkdf root info_record_c2s 32
    s2c ← expand hkdf root info_record_s2c 32
    ns ← expand hkdf root info_nonce_salt 24
    ok (record { c2s_chain = c2s; s2c_chain = s2c; nonce_salt = ns })

  unfoldable pub derive_turn_root : List ℕ → List ℕ → Result (List ℕ × InitialKeys)
  unfolding derive_initial_keys
  derive_turn_root prev_root hybrid = do
    let root = extract hkdf prev_root (hybrid ++ info_turn_ratchet)
    keys ← derive_initial_keys root
    ok (root, keys)

  module _ (kex : Exchange) where
    -- `DhRatchet::step`
    unfoldable pub step : List ℕ → List ℕ → List ℕ → Result (List ℕ × InitialKeys)
    unfolding derive_initial_keys
    step prev_root our_sk peer_pk = do
      let ss = kex.diffie_hellman our_sk peer_pk
      let new_root = extract hkdf prev_root (ss ++ info_turn_ratchet)
      keys ← derive_initial_keys new_root
      ok (new_root, keys)

    -- `TripleRatchet::initiate` and `TripleRatchet::respond`
    unfoldable pub initiate :
        List ℕ → List ℕ → List ℕ → List ℕ → List ℕ → Result (List ℕ × InitialKeys × TurnPayload)
    unfolding derive_turn_root
    initiate coins initiator_sk prev_root responder_mlkem_pk responder_x25519_pk = do
      hybrid ← hybrid_encap kex coins initiator_sk responder_mlkem_pk responder_x25519_pk
      (root, keys) ← derive_turn_root prev_root hybrid.secret
      ok (
        root,
        keys,
        record { mlkem_ct = hybrid.mlkem_ct; initiator_x25519_pk = hybrid.client_x25519_pk },
      )

    unfoldable pub respond : List ℕ → List ℕ → List ℕ → TurnPayload → Result (List ℕ × InitialKeys)
    unfolding derive_turn_root
    respond prev_root responder_mlkem_sk responder_x25519_sk payload = do
      hybrid ←
          hybrid_decap kex responder_mlkem_sk responder_x25519_sk payload.mlkem_ct
            payload.initiator_x25519_pk
      derive_turn_root prev_root hybrid
