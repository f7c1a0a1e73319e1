-- ===== src/Wire/Codec/HeaderBytes.antt =====
-- `write_header` and `read_header` of crates/ullm-wire/src/codec.rs undo one another.
use ullm.Prelude.{
  ℕ, ◌+◌, ◌^◌, ◌<◌, ◌≡◌, refl, sym, ap, ◌∙◌, some, List, ◌++◌, arith, length, take, drop,
  length-append, slice, get_elem?, take_exact, drop_past, take_all,
}
use ullm.Core.{ok, protocol_version}
use ullm.Core.Bytes.{to_be_bytes, from_be_bytes, length-to_be_bytes, from_be_bytes-to_be_bytes}
use ullm.Wire.Frame.{FrameType, frame_type_u8, frame_type_from_u8, Bitflags, Header}
use ullm.Wire.Codec.{write_header, read_header}

-- The ranges that the source's types give a header of the current version.
pub record IsHeader (h : Header) : Type 0 where
  pub current : h.version ≡ protocol_version
  pub flags_u16 : h.flags < 2 ^ 16
  pub seq_u64 : h.seq < 2 ^ 64
  pub epoch_u32 : h.epoch < 2 ^ 32
  pub nonce_12 : length h.nonce_field ≡ 12

pub frame_type_from_u8-frame_type_u8 :
    (t : FrameType) → frame_type_from_u8 (frame_type_u8 t) ≡ some t
unfolding frame_type_from_u8 frame_type_u8
frame_type_from_u8-frame_type_u8 FrameType.handshake = refl
frame_type_from_u8-frame_type_u8 FrameType.payload = refl
frame_type_from_u8-frame_type_u8 FrameType.control = refl
frame_type_from_u8-frame_type_u8 FrameType.tool_stream = refl
frame_type_from_u8-frame_type_u8 FrameType.proof = refl
frame_type_from_u8-frame_type_u8 FrameType.attest_refresh = refl

-- Three fields of two, eight and four bytes before a rest, taken apart again.
module _ (f s e rest : List ℕ) (hf : length f ≡ 2) (hs : length s ≡ 8) (he : length e ≡ 4) where
  abbrev fields : List ℕ
  fields = f ++ (s ++ (e ++ rest))

  field_flags : take 2 fields ≡ f
  field_flags = take_exact 2 f _ hf

  field_seq : take 8 (drop 2 fields) ≡ s
  field_seq = ap (take 8) (drop_past 2 0 f _ (omega arith)) ∙ take_exact 8 s _ hs

  field_epoch : take 4 (drop 10 fields) ≡ e
  field_epoch =
      ap (take 4) (drop_past 10 8 f _ (omega arith) ∙ drop_past 8 0 s _ (omega arith))
      ∙ take_exact 4 e _ he

  field_rest : drop 14 fields ≡ rest
  field_rest =
      drop_past 14 12 f _ (omega arith)
      ∙ drop_past 12 4 s _ (omega arith)
      ∙ drop_past 4 0 e _ (omega arith)

  length-fields : length fields ≡ 14 + length rest
  length-fields =
      omega (
        arith,
        length-append f (s ++ (e ++ rest)),
        length-append s (e ++ rest),
        length-append e rest,
      )

pub length-write_header : (h : Header) → IsHeader h → length (write_header h) ≡ 28
unfolding write_header
length-write_header h v = omega (
  arith,
  length-fields (to_be_bytes 2 h.flags) (to_be_bytes 8 h.seq) (to_be_bytes 4 h.epoch) h.nonce_field
      (length-to_be_bytes 2 h.flags) (length-to_be_bytes 8 h.seq) (length-to_be_bytes 4 h.epoch),
)

module _ (h : Header) (v : IsHeader h) where
  two_bytes : length (to_be_bytes 2 h.flags) ≡ 2
  two_bytes = length-to_be_bytes 2 h.flags

  eight_bytes : length (to_be_bytes 8 h.seq) ≡ 8
  eight_bytes = length-to_be_bytes 8 h.seq

  four_bytes : length (to_be_bytes 4 h.epoch) ≡ 4
  four_bytes = length-to_be_bytes 4 h.epoch

  read_flags : from_be_bytes (slice (write_header h) 2 4) ≡ h.flags
  unfolding write_header
  read_flags =
      ap from_be_bytes (field_flags _ _ _ h.nonce_field two_bytes eight_bytes four_bytes)
      ∙ from_be_bytes-to_be_bytes 2 h.flags (omega arith)

  read_seq : from_be_bytes (slice (write_header h) 4 12) ≡ h.seq
  unfolding write_header
  read_seq =
      ap from_be_bytes (field_seq _ _ _ h.nonce_field two_bytes eight_bytes four_bytes)
      ∙ from_be_bytes-to_be_bytes 8 h.seq (omega arith)

  read_epoch : from_be_bytes (slice (write_header h) 12 16) ≡ h.epoch
  unfolding write_header
  read_epoch =
      ap from_be_bytes (field_epoch _ _ _ h.nonce_field two_bytes eight_bytes four_bytes)
      ∙ from_be_bytes-to_be_bytes 4 h.epoch (omega arith)

  read_nonce : slice (write_header h) 16 28 ≡ h.nonce_field
  unfolding write_header
  read_nonce =
      ap (take 12) (field_rest _ _ _ h.nonce_field two_bytes eight_bytes four_bytes)
      ∙ take_all 12 h.nonce_field v.nonce_12

  pub version_byte : get_elem? (write_header h) 0 ≡ some protocol_version
  unfolding write_header
  version_byte = ap some v.current

  type_byte : get_elem? (write_header h) 1 ≡ some (frame_type_u8 h.frame_type)
  unfolding write_header
  type_byte = refl

-- A header in range that was written is read back, but for the undeclared flags.
pub read_header-write_header :
    (bitflags : Bitflags) (h : Header)
    → IsHeader h
    → read_header bitflags (write_header h)
      ≡ ok (record h { flags = bitflags.from_bits_truncate h.flags })
unfolding read_header
read_header-write_header bitflags h v =
    rw
      (
        length-write_header h v,
        version_byte h v,
        type_byte h v,
        frame_type_from_u8-frame_type_u8 h.frame_type,
        read_flags h v,
        read_seq h v,
        read_epoch h v,
        read_nonce h v,
      )
      (ap
        (λ (n : ℕ). ok (record {
          version = n;
          frame_type = h.frame_type;
          flags = bitflags.from_bits_truncate h.flags;
          seq = h.seq;
          epoch = h.epoch;
          nonce_field = h.nonce_field;
        }))
        (sym v.current))
