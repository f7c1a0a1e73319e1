-- ===== src/Crypto/Tests.antt =====
-- The theorems on the ratchets at small stand-ins for the crates: extraction and expansion repeat
-- bytes, encapsulation sends its coins, and a key pair is one secret.
use ullm.Prelude.{
  ℕ, ◌+◌, ◌≡◌, refl, ap, sym, ◌∙◌, List, [], ◌∷◌, Option, some, length, replicate, length-replicate,
  arith,
}
use ullm.Core.{ok}
use ullm.Crypto.Nonce.Unique.{frame_nonce-Unique}
use ullm.Crypto.Kdf.{Hkdf}
use ullm.Crypto.Kex.{Exchange, ml_kem_keypair}
use ullm.Crypto.Ratchet.{InitialKeys, TurnPayload, initiate, respond}
use ullm.Crypto.Ratchet.Agree.{IsSized, respond-initiate}

abbrev first : List ℕ → ℕ
first [] = 0
first (b ∷ bs) = b

abbrev pub hkdf : Hkdf
hkdf = record {
  hkdf_extract = λ salt ikm. replicate 32 (first ikm);
  hkdf_expand = λ prk info n. some (replicate n (first prk));
  length-extract = λ salt ikm. refl;
  expands = λ prk info n size le. (replicate n (first prk), refl, length-replicate n (first prk));
}

pub length-ciphertext :
    (coins ct ss : List ℕ)
    → ◌≡◌ {A = Option (List ℕ × List ℕ)}
        (some (replicate 1088 (first coins), replicate 32 (first coins)))
        (some (ct, ss))
    → length ct ≡ 1088
length-ciphertext coins ct ss h =
    let e : replicate 1088 (first coins) ≡ ct = cc in
    ap length (sym e) ∙ length-replicate 1088 (first coins)

abbrev pub kex : Exchange
kex = record {
  generate = λ seed. (seed, replicate 1184 (first seed));
  encapsulate = λ pk coins. some (replicate 1088 (first coins), replicate 32 (first coins));
  decapsulate = λ sk ct. some (replicate 32 (first ct));
  public_key = λ sk. replicate 32 (first sk);
  diffie_hellman = λ sk pk. replicate 32 (first sk + first pk);
  encapsulates =
      λ seed coins. (replicate 1088 (first coins), replicate 32 (first coins), refl, refl, refl);
  agrees = λ a b. commutes (first a) (first b);
  length-diffie_hellman = λ a pk. refl;
  length-public_key = λ sk. refl;
  length-mlkem_pk = λ seed. length-replicate 1184 (first seed);
  length-mlkem_ct = λ pk coins ct ss h. length-ciphertext coins ct ss h;
}
  where
    commutes : (x y : ℕ) → replicate 32 (x + y) ≡ replicate 32 (y + x)
    commutes x y = ap (λ n. replicate 32 n) sum
      where
        sum : x + y ≡ y + x
        sum = omega arith

abbrev seed : List ℕ
seed = 3 ∷ []

abbrev coins : List ℕ
coins = 4 ∷ []

abbrev alice : List ℕ
alice = 5 ∷ []

abbrev bob : List ℕ
bob = 6 ∷ []

abbrev root_key : List ℕ
root_key = replicate 32 7

respond-initiate_example :
    (root : List ℕ) × (keys : InitialKeys) × (payload : TurnPayload) × (initiate hkdf kex coins
        alice root_key
        (ml_kem_keypair kex seed).1
        (kex.public_key bob)
      ≡ ok (root, keys, payload))
    × (respond hkdf kex root_key (ml_kem_keypair kex seed).0 bob payload ≡ ok (root, keys))
    × (length root ≡ 32)
    × IsSized keys
respond-initiate_example = respond-initiate hkdf kex seed coins alice bob root_key

abbrev salt : List ℕ
salt = replicate 24 9

frame_nonce-Unique_example : (◌≡◌ {A = ℕ} 2 2) × (◌≡◌ {A = ℕ} 40 40)
frame_nonce-Unique_example =
    frame_nonce-Unique salt 2 40 2 40 refl (omega arith) (omega arith) (omega arith) (omega arith)
      refl
