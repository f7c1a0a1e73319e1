-- ===== src/Federation/Tests.antt =====
-- The federation's theorems at two slots and three providers.
use ullm.Prelude.{
  ℕ, ◌≤◌, ◌<◌, ◌≡◌, ◌↔◌, refl, Bool, true, false, List, [], ◌∷◌, some, none, length, replicate,
}
use ullm.Prelude.Reverse.{bytes_eq}
use ullm.Core.{ok}
use ullm.Transparency.Witness.{contains}
use ullm.Transparency.Witness.Count.{AllDifferent}
use ullm.Federation.Attestation.{QuoteKind, Evidence, VerificationContext, Verifier}
use ullm.Federation.MultiVendor.{
  VendorKind, MultiVendorVerifier, kind_index, has_kind, insert_kind, admits_cpu_kind,
  verify_vendors,
}
use ullm.Federation.MultiVendor.Threshold.{Backed, verify_vendors-Threshold}
use ullm.Federation.Pool.{Provider, takes, plan_disjoint}
use ullm.Federation.Pool.Disjoint.{IsPlan, plan_disjoint-IsPlan}
use ullm.Federation.Build.{ReproducibleBuildVerifier, last, build_verifier, build_verifier-Admits}

-- A verifier that passes everything and takes the report for the identity.
abbrev trusting : Verifier
trusting = record {
  verify_evidence = λ e ctx. none;
  attestation_identity = λ e. some e.report_data;
}

abbrev evidence_of : ℕ → Evidence
evidence_of n = record {
  cpu_quote_kind = QuoteKind.mock;
  cpu_quote = [];
  gpu_quote = [];
  cert_chain = replicate 32 n ∷ [];
  report_data = n ∷ [];
  issued_at_unix = 100;
}

abbrev ctx : VerificationContext
ctx = record { expected_report_data = []; now_unix = 101; max_age_sec = 60 }

abbrev two_of_two : MultiVendorVerifier
two_of_two = record {
  verifiers =
      record { kind = VendorKind.tdx; verifier = trusting }
      ∷ record { kind = VendorKind.snp; verifier = trusting }
      ∷ [];
  threshold_k = 2;
}

abbrev evidences : List Evidence
evidences = evidence_of 1 ∷ evidence_of 2 ∷ []

both_pass : verify_vendors two_of_two evidences ctx ≡ ok (VendorKind.snp ∷ VendorKind.tdx ∷ [])
unfolding verify_vendors contains bytes_eq insert_kind has_kind kind_index admits_cpu_kind
both_pass = refl

verify_vendors-Threshold_example :
    (length evidences ≡ length two_of_two.verifiers)
    × ((ids : List (List ℕ)) × AllDifferent ids
        × (two_of_two.threshold_k ≤ length ids)
        × ((q : List ℕ) → (contains q ids ≡ true) ↔ Backed ctx two_of_two.verifiers evidences q))
verify_vendors-Threshold_example =
    verify_vendors-Threshold ctx two_of_two evidences (VendorKind.snp ∷ VendorKind.tdx ∷ [])
      both_pass

abbrev provider : VendorKind → Bool → Provider
provider vendor healthy = record {
  manifest = record { provider_id = 1 ∷ []; build_hash = []; region = [] };
  vendor = vendor;
  url = [];
  healthy = healthy;
}

abbrev pool : List Provider
pool =
    provider VendorKind.tdx true
    ∷ provider VendorKind.arm false
    ∷ provider VendorKind.tdx true
    ∷ provider VendorKind.snp true
    ∷ []

abbrev plan : List Provider
plan = provider VendorKind.tdx true ∷ provider VendorKind.snp true ∷ []

planned : plan_disjoint pool 2 ≡ ok plan
unfolding plan_disjoint takes has_kind kind_index
planned = refl

plan_disjoint-IsPlan_example : IsPlan 2 plan × (0 < 2)
plan_disjoint-IsPlan_example = plan_disjoint-IsPlan pool 2 plan planned

abbrev admitting : ReproducibleBuildVerifier
admitting = record { inner = trusting; allowed_builds = replicate 32 1 ∷ [] }

admitted : (build_verifier admitting).verify_evidence (evidence_of 1) ctx ≡ none
unfolding build_verifier contains bytes_eq last
admitted = refl

build_verifier-Admits_example :
    (admitting.inner.verify_evidence (evidence_of 1) ctx ≡ none)
    × ((carrier : List ℕ) × (last (evidence_of 1).cert_chain ≡ some carrier)
        × (length carrier ≡ 32)
        × (contains carrier admitting.allowed_builds ≡ true))
build_verifier-Admits_example = build_verifier-Admits admitting (evidence_of 1) ctx admitted
