-- ===== src/Wire/Control.antt =====
-- crates/ullm-wire/src/control.rs: the plaintext body of control frames, one op byte and a payload.
use ullm.Prelude.{
  ℕ, ◌^◌, ◌<◌, ◌≡◌, sym, ap, ◌∙◌, List, [], ◌∷◌, arith, length, All, Option-cases, some, none, inl,
  inr, not, ◌==◌,
}
use ullm.Core.{Error, Result, ok, err, ◌>>=◌, ◌>>◌, refuse_if, ok_or}
use ullm.Core.Bytes.{
  IsByte, to_be_bytes, from_be_bytes, length-to_be_bytes, from_be_bytes-to_be_bytes,
  to_be_bytes-from_be_bytes, from_be_bytes-lt,
}
use ullm.Wire.Frame.{ControlOp, control_op_u8, control_op_from_u8}

pub data Control : Type 0 where
  ping : ℕ → Control
  pong : ℕ → Control
  cancel : ℕ → Control
  key_update : List ℕ → Control
  error : ℕ → Control
  flow_credit : ℕ → Control

unfoldable pub encode : Control → List ℕ
encode (Control.ping ts) = control_op_u8 ControlOp.ping ∷ to_be_bytes 8 ts
encode (Control.pong ts) = control_op_u8 ControlOp.pong ∷ to_be_bytes 8 ts
encode (Control.cancel c) = control_op_u8 ControlOp.cancel ∷ to_be_bytes 2 c
encode (Control.key_update new_pk) = control_op_u8 ControlOp.key_update ∷ new_pk
encode (Control.error c) = control_op_u8 ControlOp.error ∷ to_be_bytes 2 c
encode (Control.flow_credit bytes) = control_op_u8 ControlOp.flow_credit ∷ to_be_bytes 4 bytes

unfoldable pub read_u16 : List ℕ → Result ℕ
read_u16 b = do refuse_if (not (length b == 2)) Error.other; ok (from_be_bytes b)

unfoldable pub read_u32 : List ℕ → Result ℕ
read_u32 b = do refuse_if (not (length b == 4)) Error.other; ok (from_be_bytes b)

unfoldable pub read_u64 : List ℕ → Result ℕ
read_u64 b = do refuse_if (not (length b == 8)) Error.other; ok (from_be_bytes b)

-- `rest.try_into()` for an array of 32 bytes
unfoldable pub read_key : List ℕ → Result (List ℕ)
read_key b = do refuse_if (not (length b == 32)) Error.other; ok b

-- The match on the op: the two attestation ops have no control body.
unfoldable pub decode_payload : ControlOp → List ℕ → Result Control
unfolding read_u16 read_u32 read_u64 read_key
decode_payload ControlOp.ping rest = do ts ← read_u64 rest; ok (Control.ping ts)
decode_payload ControlOp.pong rest = do ts ← read_u64 rest; ok (Control.pong ts)
decode_payload ControlOp.cancel rest = do c ← read_u16 rest; ok (Control.cancel c)
decode_payload ControlOp.key_update rest = do pk ← read_key rest; ok (Control.key_update pk)
decode_payload ControlOp.error rest = do c ← read_u16 rest; ok (Control.error c)
decode_payload ControlOp.flow_credit rest = do n ← read_u32 rest; ok (Control.flow_credit n)
decode_payload ControlOp.attest_refresh_challenge rest = err Error.other
decode_payload ControlOp.attest_refresh_response rest = err Error.other

unfoldable pub decode : List ℕ → Result Control
unfolding decode_payload
decode [] = err Error.other
decode (op_byte ∷ rest) = do
  op ← ok_or Error.other (control_op_from_u8 op_byte)
  decode_payload op rest

-- The ranges that the source's types give the payloads.
abbrev pub IsControl : Control → Type 0
IsControl (Control.ping ts) = ts < 2 ^ 64
IsControl (Control.pong ts) = ts < 2 ^ 64
IsControl (Control.cancel c) = c < 2 ^ 16
IsControl (Control.key_update new_pk) = length new_pk ≡ 32
IsControl (Control.error c) = c < 2 ^ 16
IsControl (Control.flow_credit bytes) = bytes < 2 ^ 32

-- Every control with payloads in range decodes from its encoding.
pub decode-encode : (c : Control) → IsControl c → decode (encode c) ≡ ok c
unfolding decode encode control_op_u8 control_op_from_u8
decode-encode (Control.ping ts) h =
    ground (arith, length-to_be_bytes 8 ts, from_be_bytes-to_be_bytes 8 ts)
decode-encode (Control.pong ts) h =
    ground (arith, length-to_be_bytes 8 ts, from_be_bytes-to_be_bytes 8 ts)
decode-encode (Control.cancel c) h =
    ground (arith, length-to_be_bytes 2 c, from_be_bytes-to_be_bytes 2 c)
decode-encode (Control.key_update new_pk) h = ground arith
decode-encode (Control.error c) h =
    ground (arith, length-to_be_bytes 2 c, from_be_bytes-to_be_bytes 2 c)
decode-encode (Control.flow_credit bytes) h =
    ground (arith, length-to_be_bytes 4 bytes, from_be_bytes-to_be_bytes 4 bytes)

control_op_u8-from_u8 :
    (v : ℕ) (op : ControlOp) → control_op_from_u8 v ≡ some op → control_op_u8 op ≡ v
unfolding control_op_u8 control_op_from_u8
control_op_u8-from_u8 v op h = ground arith

module _ (rest : List ℕ) (c : Control) (bytes : All IsByte rest) where
  encode-decode_payload :
      (op : ControlOp)
      → decode_payload op rest ≡ ok c
      → (encode c ≡ control_op_u8 op ∷ rest) × IsControl c
  unfolding decode_payload encode
  encode-decode_payload ControlOp.ping h =
      ground (arith, to_be_bytes-from_be_bytes 8 rest, from_be_bytes-lt 8 rest, bytes)
  encode-decode_payload ControlOp.pong h =
      ground (arith, to_be_bytes-from_be_bytes 8 rest, from_be_bytes-lt 8 rest, bytes)
  encode-decode_payload ControlOp.cancel h =
      ground (arith, to_be_bytes-from_be_bytes 2 rest, from_be_bytes-lt 2 rest, bytes)
  encode-decode_payload ControlOp.key_update h = ground arith
  encode-decode_payload ControlOp.error h =
      ground (arith, to_be_bytes-from_be_bytes 2 rest, from_be_bytes-lt 2 rest, bytes)
  encode-decode_payload ControlOp.flow_credit h =
      ground (arith, to_be_bytes-from_be_bytes 4 rest, from_be_bytes-lt 4 rest, bytes)
  encode-decode_payload ControlOp.attest_refresh_challenge h = cc
  encode-decode_payload ControlOp.attest_refresh_response h = cc

decode_unknown :
    (v : ℕ) (rest : List ℕ) → control_op_from_u8 v ≡ none → decode (v ∷ rest) ≡ err Error.other
unfolding decode
decode_unknown v rest unknown = rw unknown

decode_known :
    (v : ℕ) (rest : List ℕ) (op : ControlOp)
    → control_op_from_u8 v ≡ some op
    → decode (v ∷ rest) ≡ decode_payload op rest
unfolding decode
decode_known v rest op known = rw known

-- A body of bytes that decodes is the encoding of its control, which is in range.
pub encode-decode :
    (b : List ℕ) (c : Control) → All IsByte b → decode b ≡ ok c → (encode c ≡ b) × IsControl c
encode-decode [] c bytes h = unfold decode in cc
encode-decode (v ∷ rest) c bytes h = elim (Option-cases (control_op_from_u8 v)) [
  | inl unknown ↦ cc (decode_unknown v rest unknown)
  | inr (op, known) ↦
      let (same, range) =
        encode-decode_payload rest c bytes.1 op (sym (decode_known v rest op known) ∙ h) in
      (same ∙ ap (λ n. n ∷ rest) (control_op_u8-from_u8 v op known), range)
]
