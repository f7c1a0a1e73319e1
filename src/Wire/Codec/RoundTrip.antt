-- ===== src/Wire/Codec/RoundTrip.antt =====
-- `encode_frame` and `decode_frame` of crates/ullm-wire/src/codec.rs on every input.
use ullm.Prelude.{
  ℕ, ◌+◌, ◌^◌, ◌≤◌, ◌<◌, ◌≡◌, refl, sym, ap, ◌∙◌, true, false, List, ◌++◌, arith, length, bit_and,
  length-append, bytes_eq, take_exact, drop_past, bytes_eq_refl, ltb,
}
use ullm.Core.{Error, ok, err, ◌>>=◌, max_plaintext_per_record}
use ullm.Core.Bytes.{to_be_bytes, length-to_be_bytes}
use ullm.Crypto.Aead.{Cipher, aead_seal, aead_open}
use ullm.Crypto.Nonce.{frame_nonce}
use ullm.Wire.Frame.{FrameType, Bitflags, Header, new_header, expected_nonce_field, all_flags}
use ullm.Wire.Codec.{write_header, EncodeOutput, encode_frame, decode_frame}
use ullm.Wire.Codec.HeaderBytes.{IsHeader, length-write_header, read_header-write_header}

pub new_header-IsHeader :
    (t : FrameType) (flags epoch seq : ℕ)
    → flags < 2 ^ 16
    → epoch < 2 ^ 32
    → seq < 2 ^ 64
    → IsHeader (new_header t flags epoch seq)
unfolding new_header
new_header-IsHeader t flags epoch seq hf he hs = record {
  current = refl;
  flags_u16 = hf;
  seq_u64 = hs;
  epoch_u32 = he;
  nonce_12 = omega (
    arith,
    length-append (to_be_bytes 4 epoch) (to_be_bytes 8 seq),
    length-to_be_bytes 4 epoch,
    length-to_be_bytes 8 seq,
  );
}

nonce_of_new :
    (t : FrameType) (flags epoch seq : ℕ)
    → (new_header t flags epoch seq).nonce_field
      ≡ expected_nonce_field (new_header t flags epoch seq)
unfolding new_header expected_nonce_field
nonce_of_new t flags epoch seq = refl

module _ (cipher : Cipher) (bitflags : Bitflags) (key salt : List ℕ) where
  -- A header and a ciphertext of sixteen bytes or more are taken apart where they were joined.
  decode_joined :
      (h : Header) (ct : List ℕ)
      → IsHeader h
      → 16 ≤ length ct
      → h.nonce_field ≡ expected_nonce_field h
      → decode_frame cipher bitflags key salt (write_header h ++ ct) ≡ (do
        plaintext ← aead_open cipher key (frame_nonce salt h.epoch h.seq) (write_header h) ct
        ok (record h { flags = bitflags.from_bits_truncate h.flags }, plaintext))
  unfolding decode_frame expected_nonce_field
  decode_joined h ct v long nonce = rw (
    take_exact 28 (write_header h) ct (length-write_header h v),
    drop_past 28 0 (write_header h) ct (omega (arith, length-write_header h v)),
    read_header-write_header bitflags h v,
    long_enough,
    same_nonce,
  )
    where
      long_enough : ltb (length (write_header h ++ ct)) 44 ≡ false
      long_enough = ground (arith, length-append (write_header h) ct, length-write_header h v)

      same_nonce : bytes_eq h.nonce_field (expected_nonce_field h) ≡ true
      same_nonce = ap (bytes_eq h.nonce_field) (sym nonce) ∙ bytes_eq_refl h.nonce_field

  -- A plaintext of at most 16 KiB with 16-bit flags, a 32-bit epoch and a 64-bit sequence number
  -- is encoded, the wire is 44 bytes longer, and decoding it under the same key and salt gives the
  -- plaintext and the header with its declared flags.
  pub decode_frame-encode_frame :
      (t : FrameType) (flags epoch seq : ℕ) (plaintext : List ℕ)
      → flags < 2 ^ 16
      → epoch < 2 ^ 32
      → seq < 2 ^ 64
      → length plaintext ≤ max_plaintext_per_record
      → (out : EncodeOutput) × (encode_frame cipher key salt t flags epoch seq plaintext ≡ ok out)
        × (length out.wire ≡ length plaintext + 44)
        × (decode_frame cipher bitflags key salt out.wire
            ≡ ok (record out.header { flags = bit_and flags all_flags }, plaintext))
  unfolding encode_frame aead_seal aead_open new_header
  decode_frame-encode_frame t flags epoch seq plaintext hf he hs fits =
      let h : Header = new_header t flags epoch seq in
      let v : IsHeader h = new_header-IsHeader t flags epoch seq hf he hs in
      let nonce : List ℕ = frame_nonce salt epoch seq in
      let (ct, sealed, grown) =
        cipher.encrypts key nonce (write_header h) plaintext (omega arith) in
      let out : EncodeOutput = record { header = h; wire = write_header h ++ ct } in
      (
        out,
        rw (short, sealed),
        omega (arith, length-append (write_header h) ct, length-write_header h v),
        decode_joined h ct v (omega arith) (nonce_of_new t flags epoch seq)
            ∙ rw (
              cipher.decrypt-encrypt key nonce (write_header h) plaintext ct sealed,
              bitflags.truncates,
            ),
      )
    where
      short : ltb max_plaintext_per_record (length plaintext) ≡ false
      short = ground arith

-- A plaintext above 16 KiB is refused with its length, whatever the key and the header.
pub encode_frame_long :
    (cipher : Cipher) (key salt : List ℕ) (t : FrameType) (flags epoch seq : ℕ) (plaintext : List ℕ)
    → max_plaintext_per_record < length plaintext
    → encode_frame cipher key salt t flags epoch seq plaintext
      ≡ err (Error.long_frame (length plaintext))
unfolding encode_frame
encode_frame_long cipher key salt t flags epoch seq plaintext h = ground arith
