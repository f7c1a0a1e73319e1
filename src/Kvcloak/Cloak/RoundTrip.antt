-- ===== src/Kvcloak/Cloak/RoundTrip.antt =====
-- What the cloak of a block undoes.
use ullm.Prelude.{
  ℕ, zero, suc, ◌+◌, ◌<◌, ◌≡◌, ◌⊎◌, inl, inr, refl, sym, ap, ◌∙◌, List, [], ◌∷◌, ◌++◌, some, length,
  get_elem?, replicate, length-replicate, arith, ℕ_discrete, bit_xor, ltb, true, lt→ltb,
}
use ullm.Prelude.Bits.Xor.{bit_xor_cancel, bit_xor_comm}
use ullm.Core.{ok}
use ullm.Core.Bytes.{to_be_bytes}
use ullm.Crypto.Kdf.{Hkdf}
use ullm.Crypto.Nonce.{xor_bytes}
use ullm.Kvcloak.Cloak.{
  CloakKey, set, set_at, gather, scatter, keystream, keystream_label, permute_label,
  apply_keystream, derive_permutation, cloak, uncloak,
}
use ullm.Kvcloak.Cloak.Indexed.{
  length-set, get_elem?-set, get_elem?-set_ne, get_elem?-some, get_elem?-ext,
}
use ullm.Kvcloak.Cloak.Permutes.{IsPermutation, shuffled-IsPermutation}

-- Where the gathered list stands to the permutation.
Gathers : List ℕ → List ℕ → List ℕ → ℕ → Type 0
Gathers buf perm cloaked from =
    (m p : ℕ) → get_elem? perm m ≡ some p → get_elem? cloaked (from + m) ≡ get_elem? buf p

gather-Gathers :
    (buf perm : List ℕ)
    → ((m p : ℕ) → get_elem? perm m ≡ some p → p < length buf)
    → (cloaked : List ℕ) × (gather buf perm ≡ ok cloaked)
      × (length cloaked ≡ length perm)
      × ((m p : ℕ) → get_elem? perm m ≡ some p → get_elem? cloaked m ≡ get_elem? buf p)
unfolding gather
gather-Gathers buf [] inside = ([], refl, refl, λ m p h. absurd cc)
gather-Gathers buf (src ∷ perm) inside =
    let (b, there) = get_elem?-some buf src (inside 0 src refl) in
    let (rest, gathered, size, reads) = gather-Gathers buf perm (λ m p h. inside (suc m) p h) in
    (b ∷ rest, rw (there, gathered) refl, ap suc size, reads_cons src b perm rest there reads)
  where
    reads_cons :
        (src b : ℕ) (perm rest : List ℕ)
        → get_elem? buf src ≡ some b
        → ((m p : ℕ) → get_elem? perm m ≡ some p → get_elem? rest m ≡ get_elem? buf p)
        → (m p : ℕ) → get_elem? (src ∷ perm) m ≡ some p
        → get_elem? (b ∷ rest) m ≡ get_elem? buf p
    reads_cons src b perm rest there reads zero p h =
        let same : src ≡ p = cc in sym there ∙ ap (get_elem? buf) same
    reads_cons src b perm rest there reads (suc m) p h = reads m p h

-- A right value written leaves the right values right.
set-keeps :
    (buf target : List ℕ) (p c k : ℕ)
    → p < length target
    → get_elem? buf p ≡ some c
    → (p ≡ k) ⊎ (get_elem? target k ≡ get_elem? buf k)
    → get_elem? (set target p c) k ≡ get_elem? buf k
set-keeps buf target p c k lt value right = elim (ℕ_discrete p k) [
  | yes e ↦
      ap (get_elem? (set target p c)) (sym e)
      ∙ get_elem?-set target p c lt
      ∙ sym value
      ∙ ap (get_elem? buf) e
  | no other ↦ elim right [
    | inl e ↦ absurd (other e)
    | inr same ↦ get_elem?-set_ne target p k c other ∙ same
  ]
]

-- After the scattering every index that the permutation names, or that was right before, is right.
scatter-Restores :
    (buf cloaked : List ℕ) (from : ℕ) (perm target : List ℕ)
    → Gathers buf perm cloaked from
    → length target ≡ length buf
    → ((m p : ℕ) → get_elem? perm m ≡ some p → p < length buf)
    → (restored : List ℕ) × (scatter from perm cloaked target ≡ ok restored)
      × (length restored ≡ length buf)
      × ((k : ℕ)
          → ((m : ℕ) × (get_elem? perm m ≡ some k)) ⊎ (get_elem? target k ≡ get_elem? buf k)
          → get_elem? restored k ≡ get_elem? buf k)
unfolding scatter set_at Gathers
scatter-Restores buf cloaked from [] target gathers size inside = (target, refl, size, unchanged)
  where
    unchanged :
        (k : ℕ)
        → ((m : ℕ) × (get_elem? {A = ℕ} [] m ≡ some k)) ⊎ (get_elem? target k ≡ get_elem? buf k)
        → get_elem? target k ≡ get_elem? buf k
    unchanged k (inl (m, h)) = absurd cc
    unchanged k (inr same) = same
scatter-Restores buf cloaked from (p ∷ perm) target gathers size inside =
    let lt = inside 0 p refl in
    let inside_target : p < length target = omega (arith, lt, size) in
    let (c, value) = get_elem?-some buf p lt in
    let read : get_elem? cloaked from ≡ some c =
      ap (get_elem? cloaked) (omega arith) ∙ gathers 0 p refl ∙ value in
    let room : ltb p (length target) ≡ true = lt→ltb p (length target) inside_target in
    let (restored, rest, long, right) =
      scatter-Restores buf cloaked (suc from) perm (set target p c)
        (λ m q h. ap (get_elem? cloaked) (omega arith) ∙ gathers (suc m) q h)
        (omega (arith, size, length-set target p c)) (λ m q h. inside (suc m) q h) in
    (
      restored,
      rw (read, room) rest,
      long,
      λ k found. right k (elim found [
        | inl (zero, h) ↦
            let same : p ≡ k = cc in inr (set-keeps buf target p c k inside_target value (inl same))
        | inl (suc m, h) ↦ inl (m, h)
        | inr same ↦ inr (set-keeps buf target p c k inside_target value (inr same))
      ]),
    )

xor_bytes_cancel : (xs ks : List ℕ) → length xs ≡ length ks → xor_bytes (xor_bytes xs ks) ks ≡ xs
unfolding xor_bytes
xor_bytes_cancel [] ks h = refl
xor_bytes_cancel (x ∷ xs) [] h = refl
xor_bytes_cancel (x ∷ xs) (k ∷ ks) h =
    let head : bit_xor (bit_xor x k) k ≡ x =
      bit_xor_comm (bit_xor x k) k ∙ ap (bit_xor k) (bit_xor_comm x k) ∙ bit_xor_cancel k x in
    rw (head, xor_bytes_cancel xs ks (omega (arith, h))) refl

length-xor_bytes : (xs ks : List ℕ) → length (xor_bytes xs ks) ≡ length xs
unfolding xor_bytes
length-xor_bytes [] ks = refl
length-xor_bytes (x ∷ xs) [] = refl
length-xor_bytes (x ∷ xs) (k ∷ ks) = ap suc (length-xor_bytes xs ks)

-- Scattering what a permutation gathered, into any block of its size, gives the block back.
scatter-gather :
    (buf perm target : List ℕ)
    → IsPermutation (length buf) perm
    → length target ≡ length buf
    → (cloaked : List ℕ) × (gather buf perm ≡ ok cloaked)
      × (length cloaked ≡ length buf)
      × (scatter 0 perm cloaked target ≡ ok buf)
unfolding Gathers
scatter-gather buf perm target is size =
    let (cloaked, gathered, long, reads) = gather-Gathers buf perm is.below in
    let (restored, scattered, long', right) =
      scatter-Restores buf cloaked 0 perm target
        (λ m p h. ap (get_elem? cloaked) (omega arith) ∙ reads m p h) size is.below in
    let same : restored ≡ buf =
      get_elem?-ext restored buf long' (λ k lt. right k (inl (is.onto k lt))) in
    (cloaked, gathered, omega (arith, long, is.size), scattered ∙ ap ok same)

module _ (hkdf : Hkdf) where
  keystream-ok :
      (key session_nonce : List ℕ) (position : ℕ)
      → (ks : List ℕ) × (keystream hkdf key session_nonce position ≡ ok ks) × (length ks ≡ 256)
  unfolding keystream
  keystream-ok key session_nonce position =
      let prk = hkdf.hkdf_extract session_nonce key in
      let (ks, expanded, size) =
        hkdf.expands prk (keystream_label ++ to_be_bytes 8 position) 256
          (hkdf.length-extract session_nonce key) (omega arith) in
      (ks, rw expanded refl, size)

  derive_permutation-IsPermutation :
      (seed session_nonce : List ℕ) (position : ℕ)
      → (perm : List ℕ) × (derive_permutation hkdf seed session_nonce position ≡ ok perm)
        × IsPermutation 256 perm
  unfolding derive_permutation
  derive_permutation-IsPermutation seed session_nonce position =
      let prk = hkdf.hkdf_extract session_nonce seed in
      let (rand_bytes, expanded, size) =
        hkdf.expands prk (permute_label ++ to_be_bytes 8 position) 1020
          (hkdf.length-extract session_nonce seed) (omega arith) in
      let (perm, shuffled, is) = shuffled-IsPermutation rand_bytes in
      (perm, rw expanded shuffled, is)

  -- Every block of 256 bytes is cloaked, with no panic, to a block of 256 bytes, and uncloaking it
  -- under the same key and position gives the block back.
  pub uncloak-cloak :
      (key : CloakKey) (position : ℕ) (kv : List ℕ)
      → length kv ≡ 256
      → (cloaked : List ℕ) × (cloak hkdf key position kv ≡ ok cloaked)
        × (length cloaked ≡ 256)
        × (uncloak hkdf key position cloaked ≡ ok kv)
  unfolding cloak uncloak apply_keystream
  uncloak-cloak key position kv size =
      let (ks, streamed, ks_256) = keystream-ok key.transform_key key.session_nonce position in
      let (perm, derived, is) =
        derive_permutation-IsPermutation key.permute_seed key.session_nonce position in
      let buf = xor_bytes kv ks in
      let buf_256 : length buf ≡ 256 = length-xor_bytes kv ks ∙ size in
      let (cloaked, gathered, long, back) =
        scatter-gather buf perm (replicate 256 0) (rw buf_256 is)
          (length-replicate {A = ℕ} 256 0 ∙ sym buf_256) in
      (
        cloaked,
        rw (streamed, derived) gathered,
        long ∙ buf_256,
        rw (derived, back, streamed) (ap ok (xor_bytes_cancel kv ks (size ∙ sym ks_256))),
      )
