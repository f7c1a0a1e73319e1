-- ===== src/Wire/Tests.antt =====
-- The wire's theorems at concrete frames, windows and controls.
use ullm.Prelude.{
  ℕ, zero, suc, ◌+◌, ◌≡◌, refl, List, [], ◌∷◌, ◌++◌, Option, none, some, length, replicate, bit_and,
  arith,
}
use ullm.Core.{ok}
use ullm.Core.Bytes.{from_be_bytes}
use ullm.Crypto.Aead.{Cipher}
use ullm.Wire.Frame.{FrameType, control_op_from_u8, Bitflags, Header, new_header, all_flags}
use ullm.Wire.Codec.{EncodeOutput, encode_frame, decode_frame, write_header}
use ullm.Wire.Codec.RoundTrip.{decode_frame-encode_frame}
use ullm.Wire.Control.{Control, encode, decode, decode-encode}
use ullm.Wire.Replay.{new, run}
use ullm.Wire.Replay.Spec.{judge_all, Tracks}
use ullm.Wire.Replay.Refine.{new-Tracks, run-judge_all}
use ullm.Wire.Replay.Once.{Distinct, accepted, accepted-Distinct}

abbrev flags : Bitflags
flags = record { from_bits_truncate = λ bits. bit_and bits all_flags; truncates = λ bits. refl }

-- A cipher that only adds the tag, which is 16 zeros before the text.
abbrev pub strip : ℕ → List ℕ → Option (List ℕ)
strip zero c = some c
strip (suc n) [] = none
strip (suc n) (zero ∷ c) = strip n c
strip (suc n) (suc b ∷ c) = none

pub strip-replicate : (n : ℕ) (m : List ℕ) → strip n (replicate n 0 ++ m) ≡ some m
strip-replicate zero m = refl
strip-replicate (suc n) m = strip-replicate n m

pub replicate-strip :
    (n : ℕ) (c m : List ℕ) → strip n c ≡ some m → some (replicate n 0 ++ m) ≡ some c
replicate-strip zero c m h = cc
replicate-strip (suc n) [] m h = cc
replicate-strip (suc n) (zero ∷ c) m h = more (replicate-strip n c m h)
  where
    more : {u v : List ℕ} → some u ≡ some v → some (0 ∷ u) ≡ some (0 ∷ v)
    more q = cc
replicate-strip (suc n) (suc b ∷ c) m h = cc

pub length-tagged : (n : ℕ) (m : List ℕ) → length (replicate n 0 ++ m) ≡ length m + n
length-tagged zero m = omega arith
length-tagged (suc n) m = omega (arith, length-tagged n m)

abbrev pub cipher : Cipher
cipher = record {
  encrypt = λ k n aad m. some (replicate 16 0 ++ m);
  decrypt = λ k n aad c. strip 16 c;
  encrypts = λ k n aad m fits. (replicate 16 0 ++ m, refl, length-tagged 16 m);
  decrypt-encrypt = λ k n aad m c e. undo m c e;
  encrypt-decrypt = λ k n aad m c e. replicate-strip 16 c m e;
}
  where
    undo : (m c : List ℕ) → some (replicate 16 0 ++ m) ≡ some c → strip 16 c ≡ some m
    undo m c e = cc (strip-replicate 16 m)

abbrev key : List ℕ
key = replicate 32 7

abbrev salt : List ℕ
salt = replicate 24 9

abbrev hello : List ℕ
hello = 104 ∷ 101 ∷ 108 ∷ 108 ∷ 111 ∷ []

decode_frame-encode_frame_example :
    (out : EncodeOutput) × (encode_frame cipher key salt FrameType.payload 3 1 42 hello ≡ ok out)
    × (length out.wire ≡ length hello + 44)
    × (decode_frame cipher flags key salt out.wire
        ≡ ok (record out.header { flags = bit_and 3 all_flags }, hello))
decode_frame-encode_frame_example =
    decode_frame-encode_frame cipher flags key salt FrameType.payload 3 1 42 hello (omega arith)
      (omega arith) (omega arith) (omega arith)

abbrev hello_header : Header
hello_header = new_header FrameType.payload 3 1 42

abbrev hello_wire : List ℕ
hello_wire = write_header hello_header ++ (replicate 16 0 ++ hello)

abbrev long_text : List ℕ
long_text = replicate 16385 0

decode-encode_example : decode (encode (Control.cancel 513)) ≡ ok (Control.cancel 513)
decode-encode_example = decode-encode (Control.cancel 513) (omega arith)

cancel_decodes : decode (3 ∷ 2 ∷ 1 ∷ []) ≡ ok (Control.cancel 513)
unfolding decode control_op_from_u8 from_be_bytes
cancel_decodes = refl

-- Out of order, a replay, a jump past the window and a late number.
abbrev traffic : List ℕ
traffic = 0 ∷ 5 ∷ 3 ∷ 5 ∷ 200 ∷ 3 ∷ 137 ∷ []

run-judge_all_example :
    ((run new traffic).1 ≡ (judge_all [] traffic).1)
    × Tracks (run new traffic).0 (judge_all [] traffic).0
run-judge_all_example = run-judge_all traffic new [] new-Tracks

accepted-Distinct_example : Distinct (accepted traffic (run new traffic).1)
accepted-Distinct_example = accepted-Distinct traffic
