-- ===== src/Kvcloak/Cloak.antt =====
-- crates/ullm-kvcloak/src/cloak.rs: a keystream and a permutation over one block, and back.
pub mod Indexed
pub mod Permutes
pub mod RoundTrip
use ullm.Prelude.{
  ℕ, zero, suc, ◌+◌, ◌-◌, ◌*◌, ◌%◌, List, [], ◌∷◌, ◌++◌, Option, none, some, take, drop, length,
  replicate, get_elem?, ltb, if◌then◌else◌,
}
use ullm.Core.{Result, ok, panic, expect, ◌>>=◌}
use ullm.Core.Bytes.{to_be_bytes, from_be_bytes}
use ullm.Crypto.Kdf.{Hkdf}
use ullm.Crypto.Nonce.{xor_bytes}

abbrev pub cloak_block_len : ℕ
cloak_block_len = 256

pub record CloakKey : Type 0 where
  pub transform_key : List ℕ
  pub permute_seed : List ℕ
  pub session_nonce : List ℕ

unfoldable pub from_parts : List ℕ → List ℕ → List ℕ → CloakKey
from_parts transform_key permute_seed session_nonce = record {
  transform_key = transform_key;
  permute_seed = permute_seed;
  session_nonce = session_nonce;
}

abbrev pub keystream_label : List ℕ
keystream_label =
    85 ∷ 76 ∷ 76 ∷ 77 ∷ 45 ∷ 118 ∷ 49 ∷ 32 ∷ 107 ∷ 118 ∷ 45 ∷ 107 ∷ 101 ∷ 121 ∷ 115 ∷ 116 ∷ 114
    ∷ 101 ∷ 97 ∷ 109 ∷ []

abbrev pub permute_label : List ℕ
permute_label =
    85 ∷ 76 ∷ 76 ∷ 77 ∷ 45 ∷ 118 ∷ 49 ∷ 32 ∷ 107 ∷ 118 ∷ 45 ∷ 112 ∷ 101 ∷ 114 ∷ 109 ∷ 117 ∷ 116
    ∷ 101 ∷ []

-- `xs[i] = v` and `xs.swap(i, j)`, which panic out of range.
unfoldable pub set : List ℕ → ℕ → ℕ → List ℕ
set [] i v = []
set (x ∷ xs) zero v = v ∷ xs
set (x ∷ xs) (suc i) v = x ∷ set xs i v

unfoldable pub set_at : List ℕ → ℕ → ℕ → Result (List ℕ)
set_at xs i v = if ltb i (length xs) then ok (set xs i v) else panic

unfoldable pub swap : List ℕ → ℕ → ℕ → Result (List ℕ)
swap xs i j = do a ← expect (get_elem? xs i); b ← expect (get_elem? xs j); ok (set (set xs i b) j a)

-- `0, 1, .., n - 1` from `i` on.
unfoldable pub iota : ℕ → ℕ → List ℕ
iota zero i = []
iota (suc n) i = i ∷ iota n (suc i)

-- The index that the i-th turn of the shuffle swaps with.
unfoldable pub swap_index : List ℕ → ℕ → ℕ
swap_index rand_bytes i =
    let off = (i - 1) * 4 in from_be_bytes (take 4 (drop off rand_bytes)) % (i + 1)

-- The loop of the shuffle, from `i` down to 1.
unfoldable pub shuffle : List ℕ → ℕ → List ℕ → Result (List ℕ)
shuffle rand_bytes zero out = ok out
shuffle rand_bytes (suc i) out = do
  swapped ← swap out (suc i) (swap_index rand_bytes (suc i))
  shuffle rand_bytes i swapped

-- The loop of `cloak` over the permutation: `*dst = buf[src]`.
unfoldable pub gather : List ℕ → List ℕ → Result (List ℕ)
gather buf [] = ok []
gather buf (src ∷ perm) = do b ← expect (get_elem? buf src); rest ← gather buf perm; ok (b ∷ rest)

-- The loop of `uncloak`: `buf[p] = cloaked[i]`.
unfoldable pub scatter : ℕ → List ℕ → List ℕ → List ℕ → Result (List ℕ)
scatter i [] cloaked buf = ok buf
scatter i (p ∷ perm) cloaked buf = do
  c ← expect (get_elem? cloaked i)
  buf' ← set_at buf p c
  scatter (suc i) perm cloaked buf'

module _ (hkdf : Hkdf) where
  unfoldable pub keystream : List ℕ → List ℕ → ℕ → Result (List ℕ)
  keystream key session_nonce position = expect (
      hkdf.hkdf_expand (hkdf.hkdf_extract session_nonce key)
        (keystream_label ++ to_be_bytes 8 position) cloak_block_len)

  unfoldable pub apply_keystream : List ℕ → List ℕ → ℕ → List ℕ → Result (List ℕ)
  apply_keystream key session_nonce position buf = do
    ks ← keystream key session_nonce position
    ok (xor_bytes buf ks)

  unfoldable pub derive_permutation : List ℕ → List ℕ → ℕ → Result (List ℕ)
  derive_permutation seed session_nonce position = do
    rand_bytes ← expect (
        hkdf.hkdf_expand (hkdf.hkdf_extract session_nonce seed)
          (permute_label ++ to_be_bytes 8 position) ((cloak_block_len - 1) * 4))
    shuffle rand_bytes (cloak_block_len - 1) (iota cloak_block_len 0)

  unfoldable pub cloak : CloakKey → ℕ → List ℕ → Result (List ℕ)
  cloak key position kv = do
    buf ← apply_keystream key.transform_key key.session_nonce position kv
    perm ← derive_permutation key.permute_seed key.session_nonce position
    gather buf perm

  unfoldable pub uncloak : CloakKey → ℕ → List ℕ → Result (List ℕ)
  uncloak key position cloaked = do
    perm ← derive_permutation key.permute_seed key.session_nonce position
    buf ← scatter 0 perm cloaked (replicate cloak_block_len 0)
    apply_keystream key.transform_key key.session_nonce position buf
