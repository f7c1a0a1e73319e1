-- ===== src/Receipts.antt =====
-- crates/ullm-receipts/src/lib.rs: usage receipts, signed and verified.
pub mod Check
pub mod Tests
use ullm.Prelude.{
  ℕ, ◌+◌, ◌<◌, ◌^◌, ◌≡◌, Bool, true, not, ◌&&◌, ◌||◌, List, [], ◌∷◌, ◌==◌, leb, length,
}
use ullm.Core.{Error, Result, ok, expect, refuse_if, ◌>>◌, ◌>>=◌}
use ullm.Core.Postcard.{Postcard}
use ullm.Transparency.Sth.{Ed25519}

pub record Receipt : Type 0 where
  pub tenant : List ℕ
  pub session : List ℕ
  pub model : List ℕ
  pub input_tokens : ℕ
  pub output_tokens : ℕ
  pub epoch : ℕ
  pub issued_at_unix : ℕ
  pub kv_blocks_cloaked : ℕ
  pub output_digest_hex : List ℕ
  pub output_string_digest_hex : List ℕ
  pub weight_commit_hex : List ℕ
  pub activation_commits_hex : List (List ℕ)

pub record SignedReceipt : Type 0 where
  pub receipt : Receipt
  pub signature : List ℕ

pub record ReceiptEnvelope : Type 0 where
  pub signed_receipt : SignedReceipt
  pub zk_layer_proofs : List (List ℕ)

-- The values of the type: the fixed array and the integers in range.
pub record IsReceipt (r : Receipt) : Type 0 where
  pub session_16 : length r.session ≡ 16
  pub input_u32 : r.input_tokens < 2 ^ 32
  pub output_u32 : r.output_tokens < 2 ^ 32
  pub epoch_u32 : r.epoch < 2 ^ 32
  pub issued_u64 : r.issued_at_unix < 2 ^ 64
  pub cloaked_u32 : r.kv_blocks_cloaked < 2 ^ 32

pub record Crates : Type 0 where
  pub ed25519 : Ed25519
  pub receipt : Postcard Receipt IsReceipt

-- `u8::is_ascii_hexdigit`
unfoldable pub is_ascii_hexdigit : ℕ → Bool
is_ascii_hexdigit b = (leb 48 b && leb b 57) || (leb 65 b && leb b 70) || (leb 97 b && leb b 102)

unfoldable pub all_hex : List ℕ → Bool
unfolding is_ascii_hexdigit
all_hex [] = true
all_hex (b ∷ bs) = is_ascii_hexdigit b && all_hex bs

-- The loop over the activation commitments.
unfoldable pub check_commits : List (List ℕ) → Result (Unit {0})
check_commits [] = ok tt
check_commits (c ∷ cs) = do
  refuse_if (not (length c == 64) || not (all_hex c)) Error.bad_receipt
  check_commits cs

unfoldable pub validate_receipt : Receipt → Result (Unit {0})
validate_receipt r = do
  refuse_if (not (length r.weight_commit_hex == 64)) Error.bad_receipt
  refuse_if (not (all_hex r.weight_commit_hex)) Error.bad_receipt
  check_commits r.activation_commits_hex
  refuse_if (not (length r.output_digest_hex == 64) || not (all_hex r.output_digest_hex))
      Error.bad_receipt
  refuse_if
      (not (length r.output_string_digest_hex == 64) || not (all_hex r.output_string_digest_hex))
      Error.bad_receipt

module _ (crates : Crates) where
  unfoldable pub receipt_bytes : Receipt → Result (List ℕ)
  receipt_bytes r = expect (crates.receipt.to_allocvec r)

  -- `ReceiptSigner::sign`
  unfoldable pub sign_receipt : List ℕ → Receipt → Result SignedReceipt
  sign_receipt key r = do
    validate_receipt r
    bytes ← receipt_bytes r
    ok (record { receipt = r; signature = crates.ed25519.sign key bytes })

  unfoldable pub verify_receipt : SignedReceipt → List ℕ → Result (Unit {0})
  verify_receipt signed tee_pk = do
    validate_receipt signed.receipt
    bytes ← receipt_bytes signed.receipt
    refuse_if (not (crates.ed25519.verify tee_pk bytes signed.signature)) Error.bad_receipt
