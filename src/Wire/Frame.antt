-- ===== src/Wire/Frame.antt =====
-- crates/ullm-wire/src/frame.rs: frame types, flags, control op codes and the frame header.
use ullm.Prelude.{
  ℕ, ◌-◌, ◌*◌, ◌/◌, ◌%◌, ◌^◌, ◌≡◌, Option, none, some, List, ◌++◌, bit_and, bit_or, ◌==◌,
  if◌then◌else◌,
}
use ullm.Core.{protocol_version}
use ullm.Core.Bytes.{to_be_bytes}

pub data FrameType : Type 0 where
  handshake payload control tool_stream proof attest_refresh : FrameType

-- `frame_type as u8`; `payload` is the source's `Data`.
unfoldable pub frame_type_u8 : FrameType → ℕ
frame_type_u8 FrameType.handshake = 0x01
frame_type_u8 FrameType.payload = 0x02
frame_type_u8 FrameType.control = 0x03
frame_type_u8 FrameType.tool_stream = 0x04
frame_type_u8 FrameType.proof = 0x05
frame_type_u8 FrameType.attest_refresh = 0x06

unfoldable pub frame_type_from_u8 : ℕ → Option FrameType
frame_type_from_u8 v =
    if v == 0x01
    then some FrameType.handshake
    else if v == 0x02
    then some FrameType.payload
    else if v == 0x03
    then some FrameType.control
    else if v == 0x04
    then some FrameType.tool_stream
    else if v == 0x05
    then some FrameType.proof
    else if v == 0x06
    then some FrameType.attest_refresh
    else none

-- Flags are their 16 bits.
abbrev pub end_of_turn : ℕ
end_of_turn = 2 ^ 0

abbrev pub key_update_pending : ℕ
key_update_pending = 2 ^ 1

abbrev pub compressed : ℕ
compressed = 2 ^ 2

abbrev pub proof_attached : ℕ
proof_attached = 2 ^ 3

abbrev pub stream_id_mask : ℕ
stream_id_mask = 0x0FF0

-- The union of the declared flags, `FrameFlags::all()`.
abbrev pub all_flags : ℕ
all_flags =
    bit_or end_of_turn
      (bit_or key_update_pending (bit_or compressed (bit_or proof_attached stream_id_mask)))

-- What the code takes from the `bitflags` crate: truncation keeps the declared bits and no other.
pub record Bitflags : Type 0 where
  pub from_bits_truncate : ℕ → ℕ
  pub truncates : (bits : ℕ) → from_bits_truncate bits ≡ bit_and bits all_flags

-- `!m` on 16 bits is `65535 - m`; `<< 4` loses what passes bit 15.
unfoldable pub with_stream_id : ℕ → ℕ → ℕ
with_stream_id bits stream_id =
    let cleared = bit_and bits (65535 - stream_id_mask) in
    bit_or cleared (stream_id * 2 ^ 4 % 2 ^ 16)

unfoldable pub stream_id : ℕ → ℕ
stream_id bits = bit_and bits stream_id_mask / 2 ^ 4 % 2 ^ 8

pub data ControlOp : Type 0 where
  ping pong cancel key_update error flow_credit : ControlOp
  attest_refresh_challenge attest_refresh_response : ControlOp

-- `op as u8`
unfoldable pub control_op_u8 : ControlOp → ℕ
control_op_u8 ControlOp.ping = 0x01
control_op_u8 ControlOp.pong = 0x02
control_op_u8 ControlOp.cancel = 0x03
control_op_u8 ControlOp.key_update = 0x04
control_op_u8 ControlOp.error = 0x05
control_op_u8 ControlOp.flow_credit = 0x06
control_op_u8 ControlOp.attest_refresh_challenge = 0x07
control_op_u8 ControlOp.attest_refresh_response = 0x08

unfoldable pub control_op_from_u8 : ℕ → Option ControlOp
control_op_from_u8 v =
    if v == 0x01
    then some ControlOp.ping
    else if v == 0x02
    then some ControlOp.pong
    else if v == 0x03
    then some ControlOp.cancel
    else if v == 0x04
    then some ControlOp.key_update
    else if v == 0x05
    then some ControlOp.error
    else if v == 0x06
    then some ControlOp.flow_credit
    else if v == 0x07
    then some ControlOp.attest_refresh_challenge
    else if v == 0x08
    then some ControlOp.attest_refresh_response
    else none

pub record Header : Type 0 where
  pub version : ℕ
  pub frame_type : FrameType
  pub flags : ℕ
  pub seq : ℕ
  pub epoch : ℕ
  pub nonce_field : List ℕ

-- `Header::new`
unfoldable pub new_header : FrameType → ℕ → ℕ → ℕ → Header
new_header frame_type flags epoch seq = record {
  version = protocol_version;
  frame_type = frame_type;
  flags = flags;
  seq = seq;
  epoch = epoch;
  nonce_field = to_be_bytes 4 epoch ++ to_be_bytes 8 seq;
}

unfoldable pub expected_nonce_field : Header → List ℕ
expected_nonce_field h = to_be_bytes 4 h.epoch ++ to_be_bytes 8 h.seq
