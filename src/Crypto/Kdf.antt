-- ===== src/Crypto/Kdf.antt =====
-- crates/ullm-crypto/src/kdf.rs: the wrapper over the crate `hkdf`.
use ullm.Prelude.{ℕ, ◌≤◌, ◌≡◌, List, [], ◌∷◌, Option, some, length}
use ullm.Core.{Result, expect}

-- HKDF with SHA-256: extraction gives 32 bytes, and expansion from 32 bytes gives every length up
-- to 255 times 32.
pub record Hkdf : Type 0 where
  pub hkdf_extract : List ℕ → List ℕ → List ℕ
  pub hkdf_expand : List ℕ → List ℕ → ℕ → Option (List ℕ)
  pub length-extract : (salt ikm : List ℕ) → length (hkdf_extract salt ikm) ≡ 32
  pub expands :
      (prk info : List ℕ) (n : ℕ)
      → length prk ≡ 32
      → n ≤ 8160
      → (out : List ℕ) × (hkdf_expand prk info n ≡ some out) × (length out ≡ n)

abbrev pub info_record_c2s : List ℕ
info_record_c2s =
    85 ∷ 76 ∷ 76 ∷ 77 ∷ 45 ∷ 118 ∷ 49 ∷ 32 ∷ 114 ∷ 101 ∷ 99 ∷ 111 ∷ 114 ∷ 100 ∷ 32 ∷ 99 ∷ 50 ∷ 115
    ∷ []

abbrev pub info_record_s2c : List ℕ
info_record_s2c =
    85 ∷ 76 ∷ 76 ∷ 77 ∷ 45 ∷ 118 ∷ 49 ∷ 32 ∷ 114 ∷ 101 ∷ 99 ∷ 111 ∷ 114 ∷ 100 ∷ 32 ∷ 115 ∷ 50 ∷ 99
    ∷ []

abbrev pub info_nonce_salt : List ℕ
info_nonce_salt =
    85 ∷ 76 ∷ 76 ∷ 77 ∷ 45 ∷ 118 ∷ 49 ∷ 32 ∷ 110 ∷ 111 ∷ 110 ∷ 99 ∷ 101 ∷ 32 ∷ 115 ∷ 97 ∷ 108 ∷ 116
    ∷ []

abbrev pub info_chain : List ℕ
info_chain = 85 ∷ 76 ∷ 76 ∷ 77 ∷ 45 ∷ 118 ∷ 49 ∷ 32 ∷ 99 ∷ 104 ∷ 97 ∷ 105 ∷ 110 ∷ []

abbrev pub info_msg : List ℕ
info_msg = 85 ∷ 76 ∷ 76 ∷ 77 ∷ 45 ∷ 118 ∷ 49 ∷ 32 ∷ 109 ∷ 115 ∷ 103 ∷ []

abbrev pub info_turn_ratchet : List ℕ
info_turn_ratchet =
    85 ∷ 76 ∷ 76 ∷ 77 ∷ 45 ∷ 118 ∷ 49 ∷ 32 ∷ 116 ∷ 117 ∷ 114 ∷ 110 ∷ 32 ∷ 114 ∷ 97 ∷ 116 ∷ 99 ∷ 104
    ∷ 101 ∷ 116 ∷ []

unfoldable pub extract : Hkdf → List ℕ → List ℕ → List ℕ
extract hkdf salt ikm = hkdf.hkdf_extract salt ikm

unfoldable pub expand : Hkdf → List ℕ → List ℕ → ℕ → Result (List ℕ)
expand hkdf prk info n = expect (hkdf.hkdf_expand prk info n)

unfoldable pub derive_root : Hkdf → List ℕ → List ℕ → List ℕ
unfolding extract
derive_root hkdf transcript_hash hybrid = extract hkdf transcript_hash hybrid
