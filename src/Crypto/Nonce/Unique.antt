-- ===== src/Crypto/Nonce/Unique.antt =====
-- Under one salt no two frames have one nonce.
use ullm.Prelude.{
  ℕ, ◌+◌, ◌*◌, ◌%◌, ◌^◌, ◌<◌, ◌≤◌, ◌≡◌, refl, sym, ap, ◌∙◌, List, [], ◌∷◌, take, drop, length,
  length-drop, bit_xor, arith,
}
use ullm.Prelude.Bits.{bit_or_fields}
use ullm.Prelude.Bits.Xor.{bit_xor_cancel}
use ullm.Prelude.Digest.{prefix-inverse}
use ullm.Core.Bytes.{to_be_bytes, from_be_bytes, from_be_bytes-to_be_bytes, length-to_be_bytes}
use ullm.Crypto.Nonce.{xor_bytes, counter, frame_nonce}

bit_xor-inverse : (x y z : ℕ) → bit_xor x y ≡ bit_xor x z → y ≡ z
bit_xor-inverse x y z e = sym (bit_xor_cancel x y) ∙ ap (bit_xor x) e ∙ bit_xor_cancel x z

-- Two masks that change a text alike are equal, if the text covers them.
xor_bytes-inverse :
    (xs ys zs : List ℕ)
    → length ys ≡ length zs
    → length ys ≤ length xs
    → xor_bytes xs ys ≡ xor_bytes xs zs
    → ys ≡ zs
unfolding xor_bytes
xor_bytes-inverse xs [] [] h le e = refl
xor_bytes-inverse xs [] (z ∷ zs) h le e = absurd (omega (arith, h))
xor_bytes-inverse xs (y ∷ ys) [] h le e = absurd (omega (arith, h))
xor_bytes-inverse [] (y ∷ ys) (z ∷ zs) h le e = absurd (omega (arith, le))
xor_bytes-inverse (x ∷ xs) (y ∷ ys) (z ∷ zs) h le e =
    let front : bit_xor x y ≡ bit_xor x z = cc in
    let back : xor_bytes xs ys ≡ xor_bytes xs zs = cc in
    let first = bit_xor-inverse x y z front in
    let rest = xor_bytes-inverse xs ys zs (omega (arith, h)) (omega (arith, le)) back in
    cc (first, rest)

counter-sum :
    (epoch seq : ℕ) → epoch < 2 ^ 32 → seq < 2 ^ 64 → counter epoch seq ≡ epoch * 2 ^ 64 + seq
unfolding counter
counter-sum epoch seq lt lt' =
    let small : epoch * 2 ^ 64 % 2 ^ 128 ≡ epoch * 2 ^ 64 = omega (arith, lt) in
    rw small (bit_or_fields 64 epoch seq lt')

-- Two frames under one salt of 24 bytes, with 32-bit epochs and 64-bit sequence numbers, whose
-- nonces are equal have the same epoch and the same sequence number.
pub frame_nonce-Unique :
    (salt : List ℕ) (epoch seq epoch' seq' : ℕ)
    → length salt ≡ 24
    → epoch < 2 ^ 32
    → epoch' < 2 ^ 32
    → seq < 2 ^ 64
    → seq' < 2 ^ 64
    → frame_nonce salt epoch seq ≡ frame_nonce salt epoch' seq'
    → (epoch ≡ epoch') × (seq ≡ seq')
unfolding frame_nonce
frame_nonce-Unique salt epoch seq epoch' seq' size e32 e32' s64 s64' same =
    let bytes = to_be_bytes 16 (counter epoch seq) in
    let bytes' = to_be_bytes 16 (counter epoch' seq') in
    let long = length-to_be_bytes 16 (counter epoch seq) in
    let long' = length-to_be_bytes 16 (counter epoch' seq') in
    let masks : bytes ≡ bytes' =
      xor_bytes-inverse (drop 8 salt) bytes bytes' (long ∙ sym long')
        (omega (arith, long, length-drop 8 salt, size))
        (prefix-inverse (take 8 salt) (xor_bytes (drop 8 salt) bytes)
          (xor_bytes (drop 8 salt) bytes') same) in
    let sum = counter-sum epoch seq e32 s64 in
    let sum' = counter-sum epoch' seq' e32' s64' in
    let counters : counter epoch seq ≡ counter epoch' seq' =
      sym (from_be_bytes-to_be_bytes 16 (counter epoch seq) (omega (arith, sum, e32, s64)))
      ∙ ap from_be_bytes masks
      ∙ from_be_bytes-to_be_bytes 16 (counter epoch' seq') (omega (arith, sum', e32', s64')) in
    (omega (arith, counters, sum, sum', s64, s64'), omega (arith, counters, sum, sum', s64, s64'))
