-- ===== src/Kvcloak/Tests.antt =====
-- The theorems on cloaked blocks at one block, with small stand-ins for the crates.
use ullm.Prelude.{ℕ, ◌<◌, ◌^◌, ◌≡◌, refl, List, [], ◌∷◌, length, replicate, length-replicate, arith}
use ullm.Core.{ok}
use ullm.Crypto.Tests.{hkdf}
use ullm.Wire.Tests.{cipher}
use ullm.Kvcloak.Cloak.{CloakKey, cloak, uncloak}
use ullm.Kvcloak.Cloak.RoundTrip.{uncloak-cloak}
use ullm.Kvcloak.Seal.{
  GcmSiv, SealedCloakedBlock, opened, open_error, seal_block, unseal_block, unseal_block-seal_block,
}

abbrev key : CloakKey
key = record {
  transform_key = replicate 32 85;
  permute_seed = replicate 32 7;
  session_nonce = replicate 16 3;
}

abbrev session : List ℕ
session = replicate 16 7

abbrev row : List ℕ
row = replicate 256 0x33

abbrev acme : List ℕ
acme = 97 ∷ []

-- The text behind 16 zeros.
abbrev pub gcm_siv : GcmSiv
gcm_siv = record {
  encrypt = cipher.encrypt;
  decrypt = cipher.decrypt;
  encrypts = λ k n aad m size room.
      let (c, sealed, _) = cipher.encrypts k n aad m (omega (arith, size)) in (c, sealed);
  decrypt-encrypt = cipher.decrypt-encrypt;
}

uncloak-cloak_example :
    (cloaked : List ℕ) × (cloak hkdf key 7 row ≡ ok cloaked)
    × (length cloaked ≡ 256)
    × (uncloak hkdf key 7 cloaked ≡ ok row)
uncloak-cloak_example = uncloak-cloak hkdf key 7 row (length-replicate {A = ℕ} 256 0x33)

unseal_block-seal_block_example :
    (sealed : SealedCloakedBlock) × (seal_block gcm_siv key.transform_key acme session 5 row
      ≡ ok sealed)
    × (unseal_block gcm_siv key.transform_key acme session 5 sealed ≡ opened row)
    × ((tenant' session' : List ℕ) (position' : ℕ)
        → length session' ≡ 16
        → position' < 2 ^ 64
        → ¬ (position' ≡ 5)
        → unseal_block gcm_siv key.transform_key tenant' session' position' sealed ≡ open_error)
unseal_block-seal_block_example =
    unseal_block-seal_block gcm_siv key.transform_key acme session 5 row refl (omega arith)
      (length-replicate {A = ℕ} 256 0x33) (omega arith)
