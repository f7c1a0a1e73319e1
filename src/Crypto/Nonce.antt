-- ===== src/Crypto/Nonce.antt =====
-- `frame_nonce` of crates/ullm-crypto/src/ratchet.rs.
pub mod Unique
use ullm.Prelude.{ℕ, ◌*◌, ◌%◌, ◌^◌, List, [], ◌∷◌, ◌++◌, take, drop, bit_or, bit_xor}
use ullm.Core.Bytes.{to_be_bytes}

-- `out[i] ^= counter[i]` for every i of both
unfoldable pub xor_bytes : List ℕ → List ℕ → List ℕ
xor_bytes [] ys = []
xor_bytes (x ∷ xs) [] = x ∷ xs
xor_bytes (x ∷ xs) (y ∷ ys) = bit_xor x y ∷ xor_bytes xs ys

-- `((epoch as u128) << 64) | (seq as u128)`
unfoldable pub counter : ℕ → ℕ → ℕ
counter epoch seq = bit_or (epoch * 2 ^ 64 % 2 ^ 128) seq

-- The 16 bytes of the counter are laid over bytes 8 to 23 of the salt.
unfoldable pub frame_nonce : List ℕ → ℕ → ℕ → List ℕ
unfolding xor_bytes counter
frame_nonce salt epoch seq =
    take 8 salt ++ xor_bytes (drop 8 salt) (to_be_bytes 16 (counter epoch seq))
