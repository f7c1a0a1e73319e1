-- ===== src/Federation/Attestation.antt =====
-- `Evidence` and the trait `Verifier` of crates/ullm-attest/src.
use ullm.Prelude.{ℕ, List, Option}
use ullm.Core.{Error}

pub data QuoteKind : Type 0 where
  tdx snp mock : QuoteKind

pub record Evidence : Type 0 where
  pub cpu_quote_kind : QuoteKind
  pub cpu_quote : List ℕ
  pub gpu_quote : List ℕ
  pub cert_chain : List (List ℕ)
  pub report_data : List ℕ
  pub issued_at_unix : ℕ

pub record VerificationContext : Type 0 where
  pub expected_report_data : List ℕ
  pub now_unix : ℕ
  pub max_age_sec : ℕ

-- The trait: `verify` is the error, or none where the evidence passes.
pub record Verifier : Type 0 where
  pub verify_evidence : Evidence → VerificationContext → Option Error
  pub attestation_identity : Evidence → Option (List ℕ)
