-- ===== src/Core.antt =====
-- The shared types of crates/ullm-core/src: error.rs (`Error`, `ErrorCode`, `Result`), ids.rs
-- (`Seq`), version.rs (the protocol's constants) and clock.rs (`now_unix`). The texts that some
-- errors carry are left out.
pub mod Bytes
pub mod Calls
pub mod Postcard
pub mod Sha
pub mod Suites
use ullm.Prelude.{
  ℕ, ◌+◌, ◌-◌, ◌*◌, ◌%◌, ◌^◌, Bool, true, false, Option, none, some, ◌==◌, ltb, if◌then◌else◌,
}

pub data ErrorCode : Type 0 where
  bad_version bad_cipher_suite attestation_failed replay seq_gap decrypt : ErrorCode
  stale_attestation quota_exceeded unauthorized model_unavailable oom : ErrorCode
  content_policy tee_out_of_date internal : ErrorCode

-- `code as u16`
unfoldable pub as_u16 : ErrorCode → ℕ
as_u16 ErrorCode.bad_version = 0x0001
as_u16 ErrorCode.bad_cipher_suite = 0x0002
as_u16 ErrorCode.attestation_failed = 0x0003
as_u16 ErrorCode.replay = 0x0004
as_u16 ErrorCode.seq_gap = 0x0005
as_u16 ErrorCode.decrypt = 0x0006
as_u16 ErrorCode.stale_attestation = 0x0007
as_u16 ErrorCode.quota_exceeded = 0x0008
as_u16 ErrorCode.unauthorized = 0x0009
as_u16 ErrorCode.model_unavailable = 0x000A
as_u16 ErrorCode.oom = 0x000B
as_u16 ErrorCode.content_policy = 0x000C
as_u16 ErrorCode.tee_out_of_date = 0x000D
as_u16 ErrorCode.internal = 0x00FF

unfoldable pub from_u16 : ℕ → Option ErrorCode
from_u16 v =
    if v == 0x0001
    then some ErrorCode.bad_version
    else if v == 0x0002
    then some ErrorCode.bad_cipher_suite
    else if v == 0x0003
    then some ErrorCode.attestation_failed
    else if v == 0x0004
    then some ErrorCode.replay
    else if v == 0x0005
    then some ErrorCode.seq_gap
    else if v == 0x0006
    then some ErrorCode.decrypt
    else if v == 0x0007
    then some ErrorCode.stale_attestation
    else if v == 0x0008
    then some ErrorCode.quota_exceeded
    else if v == 0x0009
    then some ErrorCode.unauthorized
    else if v == 0x000A
    then some ErrorCode.model_unavailable
    else if v == 0x000B
    then some ErrorCode.oom
    else if v == 0x000C
    then some ErrorCode.content_policy
    else if v == 0x000D
    then some ErrorCode.tee_out_of_date
    else if v == 0x00FF
    then some ErrorCode.internal
    else none

pub data Error : Type 0 where
  bad_version : ℕ → ℕ → Error
  bad_cipher_suite attestation_failed : Error
  stale_attestation : ℕ → Error
  replay : ℕ → Error
  seq_gap : ℕ → Error
  decrypt : Error
  short_frame : ℕ → Error
  long_frame : ℕ → Error
  bad_frame_type : ℕ → Error
  bad_handshake bad_receipt transport serde other : Error

-- `Error::code`: the cleartext code of an ERROR frame.
unfoldable pub code : Error → ErrorCode
code (Error.bad_version got expected) = ErrorCode.bad_version
code Error.bad_cipher_suite = ErrorCode.bad_cipher_suite
code Error.attestation_failed = ErrorCode.attestation_failed
code (Error.stale_attestation ttl_sec) = ErrorCode.stale_attestation
code (Error.replay seq) = ErrorCode.replay
code (Error.seq_gap gap) = ErrorCode.seq_gap
code Error.decrypt = ErrorCode.decrypt
code _ = ErrorCode.internal

-- What a call comes to: a value, a returned error, or a panic (`expect`, an index out of range).
pub data Result {ℓ} (A : Type ℓ) : Type ℓ where
  ok : A → Result A
  err : Error → Result A
  panic : Result A

-- `?`: the first call that does not return a value ends the caller.
infixl 5 ◌>>=◌
abbrev pub ◌>>=◌ {ℓ κ} : {V : Type ℓ} {R : Type κ} → Result V → (V → Result R) → Result R
panic >>= rest = panic
err refused >>= rest = err refused
ok value >>= rest = rest value

-- The same after a call that returns nothing.
infixl 5 ◌>>◌
abbrev pub ◌>>◌ {κ} : {R : Type κ} → Result (Unit {0}) → Result R → Result R
call >> rest = call >>= (λ done. rest)

-- `if refused { return Err(e) }`
abbrev pub refuse_if : Bool → Error → Result (Unit {0})
refuse_if true e = err e
refuse_if false e = ok tt

-- `ok_or`
abbrev pub ok_or {ℓ} : {A : Type ℓ} → Error → Option A → Result A
ok_or e none = err e
ok_or e (some a) = ok a

abbrev pub is_ok {ℓ} : {A : Type ℓ} → Result A → Bool
is_ok (ok a) = true
is_ok (err e) = false
is_ok panic = false

-- `expect`
abbrev pub expect {ℓ} : {A : Type ℓ} → Option A → Result A
expect none = panic
expect (some a) = ok a

-- `Seq::next`: a 64-bit counter that wraps.
unfoldable pub next : ℕ → ℕ
next seq = (seq + 1) % 2 ^ 64

abbrev pub protocol_version : ℕ
protocol_version = 0x03

abbrev pub max_plaintext_per_record : ℕ
max_plaintext_per_record = 16 * 1024

abbrev pub nonce_ttl_default_sec : ℕ
nonce_ttl_default_sec = 60

-- `now_unix` and `now_unix_or_zero`, of a wall clock and an epoch counted in seconds from a common
-- origin: `duration_since` fails when the clock stands before the epoch.
unfoldable pub now_unix : ℕ → ℕ → Result ℕ
now_unix epoch clock = if ltb clock epoch then err Error.other else ok (clock - epoch)

unfoldable pub now_unix_or_zero : ℕ → ℕ → ℕ
now_unix_or_zero epoch clock = if ltb clock epoch then 0 else clock - epoch
