-- ===== src/Receipts/Check.antt =====
-- Which receipts are signed, and which verify.
use ullm.Prelude.{
  ℕ, ◌≤◌, ◌≡◌, refl, ◌⊎◌, inl, inr, true, false, not, ◌||◌, List, [], ◌∷◌, ◌==◌, length, arith, All,
  Bool-cases, Option-cases, some,
}
use ullm.Core.{Error, ok, err}
use ullm.Receipts.{
  Receipt, SignedReceipt, IsReceipt, Crates, is_ascii_hexdigit, all_hex, check_commits,
  validate_receipt, receipt_bytes, sign_receipt, verify_receipt,
}

-- The characters 0 to 9, A to F and a to f.
abbrev pub IsHexDigit : ℕ → Type 0
IsHexDigit b = ((48 ≤ b) × (b ≤ 57)) ⊎ ((65 ≤ b) × (b ≤ 70)) ⊎ ((97 ≤ b) × (b ≤ 102))

-- A digest of 32 bytes in hexadecimal.
abbrev pub IsDigest : List ℕ → Type 0
IsDigest s = (length s ≡ 64) × All IsHexDigit s

pub record IsWellFormed (r : Receipt) : Type 0 where
  pub weight_commit : IsDigest r.weight_commit_hex
  pub activation_commits : All IsDigest r.activation_commits_hex
  pub output_digest : IsDigest r.output_digest_hex
  pub output_string_digest : IsDigest r.output_string_digest_hex

is_ascii_hexdigit-IsHexDigit :
    (b : ℕ)
    → (IsHexDigit b × (is_ascii_hexdigit b ≡ true))
      ⊎ ((¬ IsHexDigit b) × (is_ascii_hexdigit b ≡ false))
unfolding is_ascii_hexdigit
is_ascii_hexdigit-IsHexDigit b = ground arith

all_hex-All :
    (s : List ℕ)
    → (All IsHexDigit s × (all_hex s ≡ true)) ⊎ ((¬ All IsHexDigit s) × (all_hex s ≡ false))
unfolding all_hex
all_hex-All [] = inl (tt, refl)
all_hex-All (b ∷ bs) = elim (is_ascii_hexdigit-IsHexDigit b) [
  | inr (other, refused) ↦ inr (λ h. other h.0, rw refused refl)
  | inl (digit, accepted) ↦ elim (all_hex-All bs) [
    | inl (digits, more) ↦ inl ((digit, digits), rw (accepted, more) refl)
    | inr (others, less) ↦ inr (λ h. others h.1, rw (accepted, less) refl)
  ]
]

IsDigest-cases :
    (s : List ℕ)
    → (IsDigest s × (length s == 64 ≡ true) × (all_hex s ≡ true))
      ⊎ ((¬ IsDigest s) × (not (length s == 64) || not (all_hex s) ≡ true))
IsDigest-cases s = elim (all_hex-All s) [
  | inr (others, refused) ↦ inr (λ h. others h.1, ground (arith, refused))
  | inl (digits, accepted) ↦ elim (Bool-cases (length s == 64)) [
    | inl long ↦ inl ((ground (arith, long), digits), long, accepted)
    | inr other ↦ inr (λ h. absurd (ground (arith, h.0, other)), ground (arith, other))
  ]
]

check_commits-All :
    (cs : List (List ℕ))
    → (All IsDigest cs × (check_commits cs ≡ ok tt))
      ⊎ ((¬ All IsDigest cs) × (check_commits cs ≡ err Error.bad_receipt))
unfolding check_commits
check_commits-All [] = inl (tt, refl)
check_commits-All (c ∷ cs) = elim (IsDigest-cases c) [
  | inr (other, refused) ↦ inr (λ h. other h.0, rw refused refl)
  | inl (digest, long, hex) ↦ elim (check_commits-All cs) [
    | inl (digests, more) ↦ inl ((digest, digests), rw (long, hex, more) refl)
    | inr (others, less) ↦ inr (λ h. others h.1, rw (long, hex, less) refl)
  ]
]

-- Validation passes exactly the receipts whose digests are all 64 hexadecimal digits long.
validate_receipt-IsWellFormed :
    (r : Receipt)
    → (IsWellFormed r × (validate_receipt r ≡ ok tt))
      ⊎ ((¬ IsWellFormed r) × (validate_receipt r ≡ err Error.bad_receipt))
unfolding validate_receipt
validate_receipt-IsWellFormed r = elim (IsDigest-cases r.weight_commit_hex) [
  | inr (other, refused) ↦ inr (λ h. other h.weight_commit, ground (arith, refused))
  | inl (weight, long, hex) ↦ elim (check_commits-All r.activation_commits_hex) [
    | inr (others, less) ↦ inr (λ h. others h.activation_commits, rw (long, hex, less) refl)
    | inl (digests, more) ↦ elim (IsDigest-cases r.output_digest_hex) [
      | inr (other, refused) ↦ inr (λ h. other h.output_digest, rw (long, hex, more, refused) refl)
      | inl (output, long', hex') ↦ elim (IsDigest-cases r.output_string_digest_hex) [
        | inr (other, refused) ↦
            inr (λ h. other h.output_string_digest, rw (long, hex, more, long', hex', refused) refl)
        | inl (text, long'', hex'') ↦ inl (
          record {
            weight_commit = weight;
            activation_commits = digests;
            output_digest = output;
            output_string_digest = text;
          },
          rw (long, hex, more, long', hex', long'', hex'') refl,
        )
      ]
    ]
  ]
]

module _ (crates : Crates) where
  -- A receipt whose digests are all well formed is signed, and its signature verifies under the
  -- signer's key; any other receipt is not signed, and with no signature and under no key does it
  -- verify.
  pub sign_receipt-Decides :
      (key : List ℕ) (r : Receipt)
      → IsReceipt r
      → (IsWellFormed r
          × (signed : SignedReceipt) × (sign_receipt crates key r ≡ ok signed)
          × (signed.receipt ≡ r)
          × (verify_receipt crates signed (crates.ed25519.verifying_key key) ≡ ok tt))
        ⊎ ((¬ IsWellFormed r)
            × (sign_receipt crates key r ≡ err Error.bad_receipt)
            × ((signature pk : List ℕ)
                → verify_receipt crates (record { receipt = r; signature = signature }) pk
                  ≡ err Error.bad_receipt))
  unfolding sign_receipt verify_receipt receipt_bytes
  sign_receipt-Decides key r is = elim (validate_receipt-IsWellFormed r) [
    | inr (malformed, refused) ↦ inr (malformed, rw refused refl, λ signature pk. rw refused refl)
    | inl (formed, passed) ↦
        let (bytes, wrote, _) = crates.receipt.round_trip r is in
        let signature = crates.ed25519.sign key bytes in
        inl (
          formed,
          record { receipt = r; signature = signature },
          rw (passed, wrote) refl,
          refl,
          rw (passed, wrote, crates.ed25519.verify-sign key bytes) refl,
        )
  ]

  -- A verified receipt's digests are well formed, and its signature verifies over its bytes.
  pub verify_receipt-IsWellFormed :
      (signed : SignedReceipt) (pk : List ℕ)
      → verify_receipt crates signed pk ≡ ok tt
      → IsWellFormed signed.receipt
        × (bytes : List ℕ) × (crates.receipt.to_allocvec signed.receipt ≡ some bytes)
        × (crates.ed25519.verify pk bytes signed.signature ≡ true)
  unfolding verify_receipt receipt_bytes
  verify_receipt-IsWellFormed signed pk h = elim (validate_receipt-IsWellFormed signed.receipt) [
    | inr (malformed, refused) ↦ absurd (ground (arith, h, refused))
    | inl (formed, passed) ↦ elim (Option-cases (crates.receipt.to_allocvec signed.receipt)) [
      | inl none_there ↦ absurd (ground (arith, h, passed, none_there))
      | inr (bytes, wrote) ↦ (formed, bytes, wrote, ground (arith, h, passed, wrote))
    ]
  ]
