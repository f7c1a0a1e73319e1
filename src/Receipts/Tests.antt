-- ===== src/Receipts/Tests.antt =====
-- The theorems on receipts at small stand-ins for the crates: a receipt is written field by field,
-- each behind its length, and a signature repeats its text.
use ullm.Prelude.{
  ℕ, ◌≡◌, refl, ◌⊎◌, true, List, [], ◌∷◌, Option, none, some, length, replicate, arith,
  bytes_eq_refl,
}
unfoldable use ullm.Prelude.Reverse.{bytes_eq}
use ullm.Prelude.Fields.{join, split, split-join}
use ullm.Core.{Error, ok, err}
use ullm.Transparency.Sth.{Ed25519}
use ullm.Receipts.{
  Receipt, SignedReceipt, IsReceipt, Crates, sign_receipt, verify_receipt, validate_receipt,
  receipt_bytes, check_commits, all_hex, is_ascii_hexdigit,
}
use ullm.Receipts.Check.{IsWellFormed, sign_receipt-Decides, verify_receipt-IsWellFormed}

fields : Receipt → List (List ℕ)
fields r =
    r.tenant
    ∷ r.session
    ∷ r.model
    ∷ (r.input_tokens ∷ r.output_tokens ∷ r.epoch ∷ r.issued_at_unix ∷ r.kv_blocks_cloaked ∷ [])
    ∷ r.output_digest_hex
    ∷ r.output_string_digest_hex
    ∷ r.weight_commit_hex
    ∷ (length r.activation_commits_hex ∷ [])
    ∷ join r.activation_commits_hex
    ∷ []

receipt_of : List (List ℕ) → Option Receipt
receipt_of (t ∷ s ∷ m ∷ (i ∷ o ∷ e ∷ at ∷ kv ∷ []) ∷ out ∷ text ∷ w ∷ (n ∷ []) ∷ cs ∷ []) =
    some (record {
      tenant = t;
      session = s;
      model = m;
      input_tokens = i;
      output_tokens = o;
      epoch = e;
      issued_at_unix = at;
      kv_blocks_cloaked = kv;
      output_digest_hex = out;
      output_string_digest_hex = text;
      weight_commit_hex = w;
      activation_commits_hex = split n cs;
    })
receipt_of _ = none

receipt_of-join : (r : Receipt) → receipt_of (split 9 (join (fields r))) ≡ some r
unfolding fields receipt_of
receipt_of-join r = rw (split-join (fields r), split-join r.activation_commits_hex) refl

abbrev ed25519 : Ed25519
ed25519 = record {
  verifying_key = λ key. key;
  is_key = λ key. true;
  sign = λ key m. m;
  verify = λ pk m signature. bytes_eq m signature;
  verifying_key-is_key = λ key. refl;
  verify-sign = λ key m. bytes_eq_refl m;
}

abbrev crates : Crates
crates = record {
  ed25519 = ed25519;
  receipt = record {
    to_allocvec = λ r. some (join (fields r));
    from_bytes = λ b. receipt_of (split 9 b);
    round_trip = λ r is. (join (fields r), refl, receipt_of-join r);
  };
}

abbrev key : List ℕ
key = 5 ∷ []

abbrev receipt : Receipt
receipt = record {
  tenant = 97 ∷ [];
  session = replicate 16 1;
  model = 109 ∷ [];
  input_tokens = 42;
  output_tokens = 128;
  epoch = 0;
  issued_at_unix = 1700000000;
  kv_blocks_cloaked = 0;
  output_digest_hex = replicate 64 48;
  output_string_digest_hex = replicate 64 51;
  weight_commit_hex = replicate 64 49;
  activation_commits_hex = replicate 9 (replicate 64 50);
}

receipt-IsReceipt : IsReceipt receipt
receipt-IsReceipt = record {
  session_16 = refl;
  input_u32 = omega arith;
  output_u32 = omega arith;
  epoch_u32 = omega arith;
  issued_u64 = omega arith;
  cloaked_u32 = omega arith;
}

sign_receipt-Decides_example :
    (IsWellFormed receipt
      × (signed : SignedReceipt) × (sign_receipt crates key receipt ≡ ok signed)
      × (signed.receipt ≡ receipt)
      × (verify_receipt crates signed (ed25519.verifying_key key) ≡ ok tt))
    ⊎ ((¬ IsWellFormed receipt)
        × (sign_receipt crates key receipt ≡ err Error.bad_receipt)
        × ((signature pk : List ℕ)
            → verify_receipt crates (record { receipt = receipt; signature = signature }) pk
              ≡ err Error.bad_receipt))
sign_receipt-Decides_example = sign_receipt-Decides crates key receipt receipt-IsReceipt

abbrev signed_receipt : SignedReceipt
signed_receipt = record { receipt = receipt; signature = join (fields receipt) }

signed_receipt_verifies : verify_receipt crates signed_receipt key ≡ ok tt
unfolding verify_receipt validate_receipt receipt_bytes check_commits all_hex is_ascii_hexdigit
    bytes_eq fields
signed_receipt_verifies = refl

verify_receipt-IsWellFormed_example :
    IsWellFormed receipt
    × (bytes : List ℕ) × (crates.receipt.to_allocvec receipt ≡ some bytes)
    × (bytes_eq bytes (join (fields receipt)) ≡ true)
verify_receipt-IsWellFormed_example =
    verify_receipt-IsWellFormed crates signed_receipt key signed_receipt_verifies
