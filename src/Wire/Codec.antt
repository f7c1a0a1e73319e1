-- ===== src/Wire/Codec.antt =====
-- crates/ullm-wire/src/codec.rs: frames to and from the wire. The wire is the header's 28 bytes,
-- then the ciphertext with its tag.
pub mod HeaderBytes
pub mod RoundTrip
use ullm.Prelude.{
  ℕ, ◌+◌, ◌-◌, List, [], ◌∷◌, ◌++◌, length, take, drop, slice, get_elem?, bytes_eq, not, ◌==◌, ltb,
}
use ullm.Core.{
  Error, Result, ok, err, panic, ◌>>=◌, ◌>>◌, refuse_if, ok_or, expect, protocol_version,
  max_plaintext_per_record,
}
use ullm.Core.Bytes.{to_be_bytes, from_be_bytes}
use ullm.Crypto.Aead.{Cipher, aead_seal, aead_open}
use ullm.Crypto.Nonce.{frame_nonce}
use ullm.Wire.Frame.{
  FrameType, frame_type_u8, frame_type_from_u8, Bitflags, Header, new_header, expected_nonce_field,
}

abbrev pub header_len : ℕ
header_len = 28

abbrev pub tag_len : ℕ
tag_len = 16

pub record EncodeOutput : Type 0 where
  pub header : Header
  pub wire : List ℕ

-- The fields stand at the offsets 0, 1, 2, 4, 12 and 16.
unfoldable pub write_header : Header → List ℕ
write_header h =
    h.version
    ∷ frame_type_u8 h.frame_type
    ∷ (to_be_bytes 2 h.flags ++ (to_be_bytes 8 h.seq ++ (to_be_bytes 4 h.epoch ++ h.nonce_field)))

unfoldable pub read_header : Bitflags → List ℕ → Result Header
read_header bitflags b = do
  refuse_if (not (length b == header_len)) (Error.short_frame (length b))
  version ← expect (get_elem? b 0)
  refuse_if (not (version == protocol_version)) (Error.bad_version version protocol_version)
  type_byte ← expect (get_elem? b 1)
  frame_type ← ok_or (Error.bad_frame_type type_byte) (frame_type_from_u8 type_byte)
  ok (record {
    version = version;
    frame_type = frame_type;
    flags = bitflags.from_bits_truncate (from_be_bytes (slice b 2 4));
    seq = from_be_bytes (slice b 4 12);
    epoch = from_be_bytes (slice b 12 16);
    nonce_field = slice b 16 28;
  })

unfoldable pub encode_frame :
    Cipher → List ℕ → List ℕ → FrameType → ℕ → ℕ → ℕ → List ℕ → Result EncodeOutput
encode_frame cipher key salt frame_type flags epoch seq plaintext = do
  refuse_if (ltb max_plaintext_per_record (length plaintext)) (Error.long_frame (length plaintext))
  let header = new_header frame_type flags epoch seq
  let header_bytes = write_header header
  let nonce = frame_nonce salt epoch seq
  ct ← aead_seal cipher key nonce header_bytes plaintext
  ok (record { header = header; wire = header_bytes ++ ct })

unfoldable pub decode_frame :
    Cipher → Bitflags → List ℕ → List ℕ → List ℕ → Result (Header × List ℕ)
decode_frame cipher bitflags key salt wire = do
  refuse_if (ltb (length wire) (header_len + tag_len)) (Error.short_frame (length wire))
  let header_bytes = take header_len wire
  header ← read_header bitflags header_bytes
  refuse_if (not (bytes_eq header.nonce_field (expected_nonce_field header))) Error.decrypt
  let nonce = frame_nonce salt header.epoch header.seq
  plaintext ← aead_open cipher key nonce header_bytes (drop header_len wire)
  ok (header, plaintext)
