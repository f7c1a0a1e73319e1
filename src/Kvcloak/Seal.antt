-- ===== src/Kvcloak/Seal.antt =====
-- crates/ullm-kvcloak/src/seal.rs and crates/ullm-crypto/src/seal.rs: cloaked blocks sealed at rest.
use ullm.Prelude.{
  ℕ, ◌+◌, ◌^◌, ◌≤◌, ◌<◌, ◌≡◌, refl, sym, ap, ◌∙◌, not, ◌==◌, if◌then◌else◌, List, [], ◌∷◌, ◌++◌,
  Option, none, some, take, length, length-take, length-append, bytes_eq, bytes_eq_refl,
  bytes_eq_sound, arith, Bool-cases, inl, inr,
}
use ullm.Prelude.Digest.{append-inverse}
use ullm.Core.{Result, ok, expect, ◌>>=◌}
use ullm.Core.Bytes.{to_be_bytes, from_be_bytes, from_be_bytes-to_be_bytes, length-to_be_bytes}
use ullm.Kvcloak.Cloak.{cloak_block_len}

-- AES-256-GCM-SIV as the crate `aes_gcm_siv` documents it, over key, nonce, associated data and
-- text. Encryption is deterministic and answers where text and associated data have at most 2 to
-- the power 36 bytes each, and decryption undoes it.
pub record GcmSiv : Type 0 where
  pub encrypt : List ℕ → List ℕ → List ℕ → List ℕ → Option (List ℕ)
  pub decrypt : List ℕ → List ℕ → List ℕ → List ℕ → Option (List ℕ)
  pub encrypts :
      (k n aad m : List ℕ)
      → length m ≤ 2 ^ 36
      → length aad ≤ 2 ^ 36
      → (c : List ℕ) × (encrypt k n aad m ≡ some c)
  pub decrypt-encrypt :
      (k n aad m c : List ℕ) → encrypt k n aad m ≡ some c → decrypt k n aad c ≡ some m

-- What an unsealing comes to: the block, or `SealError::Open`.
pub data Opened : Type 0 where
  opened : List ℕ → Opened
  open_error : Opened

pub record SealedCloakedBlock : Type 0 where
  pub nonce : List ℕ
  pub ciphertext : List ℕ

abbrev pub at_rest_label : List ℕ
at_rest_label =
    85 ∷ 76 ∷ 76 ∷ 77 ∷ 45 ∷ 118 ∷ 49 ∷ 32 ∷ 107 ∷ 118 ∷ 45 ∷ 97 ∷ 116 ∷ 45 ∷ 114 ∷ 101 ∷ 115 ∷ 116
    ∷ []

unfoldable pub derive_nonce : List ℕ → ℕ → List ℕ
derive_nonce session position = take 4 session ++ to_be_bytes 8 position

unfoldable pub aad_bytes : List ℕ → List ℕ → ℕ → List ℕ
aad_bytes tenant session position =
    at_rest_label ++ (tenant ++ (0xFF ∷ session ++ to_be_bytes 8 position))

-- The nonce tells positions apart.
derive_nonce-inverse :
    (session session' : List ℕ) (position position' : ℕ)
    → length session ≡ 16
    → length session' ≡ 16
    → position < 2 ^ 64
    → position' < 2 ^ 64
    → derive_nonce session position ≡ derive_nonce session' position'
    → position ≡ position'
unfolding derive_nonce
derive_nonce-inverse session session' position position' h h' lt lt' e =
    let four : length (take 4 session) ≡ length (take 4 session') =
      omega (arith, length-take 4 session, length-take 4 session', h, h') in
    let (_, bytes) =
      append-inverse (take 4 session) (to_be_bytes 8 position) (take 4 session')
        (to_be_bytes 8 position') four e in
    sym (from_be_bytes-to_be_bytes 8 position (omega (arith, lt)))
    ∙ ap from_be_bytes bytes
    ∙ from_be_bytes-to_be_bytes 8 position' (omega (arith, lt'))

length-aad_bytes :
    (tenant session : List ℕ) (position : ℕ)
    → length session ≡ 16
    → length (aad_bytes tenant session position) ≡ length tenant + 43
unfolding aad_bytes
length-aad_bytes tenant session position h = omega (
  arith,
  h,
  length-append tenant (0xFF ∷ session ++ to_be_bytes 8 position),
  length-append session (to_be_bytes 8 position),
  length-to_be_bytes 8 position,
)

module _ (cipher : GcmSiv) where
  -- `seal` and `unseal` of the crate ullm-crypto.
  unfoldable pub seal : List ℕ → List ℕ → List ℕ → List ℕ → Result (List ℕ)
  seal kek nonce aad plaintext = expect (cipher.encrypt kek nonce aad plaintext)

  unfoldable pub unseal : List ℕ → List ℕ → List ℕ → List ℕ → Option (List ℕ)
  unseal kek nonce aad ciphertext = cipher.decrypt kek nonce aad ciphertext

  unfoldable pub seal_block : List ℕ → List ℕ → List ℕ → ℕ → List ℕ → Result SealedCloakedBlock
  seal_block kek tenant session position cloaked = do
    let nonce = derive_nonce session position
    ct ← seal kek nonce (aad_bytes tenant session position) cloaked
    ok (record { nonce = nonce; ciphertext = ct })

  unfoldable pub check_block : Option (List ℕ) → Opened
  check_block none = open_error
  check_block (some pt) = if not (length pt == cloak_block_len) then open_error else opened pt

  unfoldable pub unseal_block : List ℕ → List ℕ → List ℕ → ℕ → SealedCloakedBlock → Opened
  unseal_block kek tenant session position sealed =
      if not (bytes_eq sealed.nonce (derive_nonce session position))
      then open_error
      else check_block
          (unseal kek sealed.nonce (aad_bytes tenant session position) sealed.ciphertext)

  -- A block of 256 bytes is sealed, under a tenant whose name leaves room for the 43 other bytes of
  -- the associated data, a session of 16 bytes and a position below 2 to the power 64, and unsealed
  -- to itself under these three; under another position below 2 to the power 64, whatever the
  -- tenant and the session of 16 bytes, the unsealing is refused.
  pub unseal_block-seal_block :
      (kek tenant session : List ℕ) (position : ℕ) (cloaked : List ℕ)
      → length session ≡ 16
      → position < 2 ^ 64
      → length cloaked ≡ 256
      → length tenant + 43 ≤ 2 ^ 36
      → (sealed : SealedCloakedBlock) × (seal_block kek tenant session position cloaked ≡ ok sealed)
        × (unseal_block kek tenant session position sealed ≡ opened cloaked)
        × ((tenant' session' : List ℕ) (position' : ℕ)
            → length session' ≡ 16
            → position' < 2 ^ 64
            → ¬ (position' ≡ position)
            → unseal_block kek tenant' session' position' sealed ≡ open_error)
  unfolding seal_block unseal_block seal unseal check_block
  unseal_block-seal_block kek tenant session position cloaked session_16 lt size fits =
      let nonce = derive_nonce session position in
      let aad = aad_bytes tenant session position in
      let room : length aad ≤ 2 ^ 36 =
        omega (arith, length-aad_bytes tenant session position session_16, fits) in
      let (ct, sealed) = cipher.encrypts kek nonce aad cloaked (omega (arith, size)) room in
      let back = cipher.decrypt-encrypt kek nonce aad cloaked ct sealed in
      (
        record { nonce = nonce; ciphertext = ct },
        rw sealed refl,
        rw (bytes_eq_refl nonce, back) (ground (arith, size)),
        λ tenant' session' position' session'_16 lt' other.
            elim (Bool-cases (bytes_eq nonce (derive_nonce session' position'))) [
              | inr different ↦ rw different refl
              | inl same ↦ absurd (
                  other (
                    sym (
                      derive_nonce-inverse session session' position position' session_16
                        session'_16 lt lt'
                        (bytes_eq_sound nonce (derive_nonce session' position') same))))
            ],
      )
