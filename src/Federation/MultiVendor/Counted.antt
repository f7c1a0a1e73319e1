-- ===== src/Federation/MultiVendor/Counted.antt =====
-- When the evidence of a slot counts, apart from the code's own tests.
use ullm.Prelude.{
  ℕ, ◌≡◌, ◌⊎◌, refl, true, List, none, some, arith, Bool-cases, inl, inr, Option-cases,
}
use ullm.Federation.Attestation.{QuoteKind, Evidence, VerificationContext}
use ullm.Federation.MultiVendor.{
  VendorKind, VendorVerifier, admits_cpu_kind, counted_identity, slot_identity,
}

-- A slot of a kind takes CPU quotes of its own platform and mock quotes; a slot that is of no CPU
-- vendor takes any.
abbrev pub Admits : VendorKind → QuoteKind → Type 0
Admits kind quote =
    (quote ≡ QuoteKind.mock)
    ⊎ (kind ≡ VendorKind.nvidia)
    ⊎ (kind ≡ VendorKind.arm)
    ⊎ ((kind ≡ VendorKind.tdx) × (quote ≡ QuoteKind.tdx))
    ⊎ ((kind ≡ VendorKind.snp) × (quote ≡ QuoteKind.snp))

admits_cpu_kind-Admits :
    (kind : VendorKind) (quote : QuoteKind) → admits_cpu_kind kind quote ≡ true → Admits kind quote
unfolding admits_cpu_kind
admits_cpu_kind-Admits kind QuoteKind.mock h = inl refl
admits_cpu_kind-Admits VendorKind.nvidia quote h = inr (inl refl)
admits_cpu_kind-Admits VendorKind.arm quote h = inr (inr (inl refl))
admits_cpu_kind-Admits VendorKind.tdx QuoteKind.tdx h = inr (inr (inr (inl (refl, refl))))
admits_cpu_kind-Admits VendorKind.tdx QuoteKind.snp h = absurd cc
admits_cpu_kind-Admits VendorKind.snp QuoteKind.tdx h = absurd cc
admits_cpu_kind-Admits VendorKind.snp QuoteKind.snp h = inr (inr (inr (inr (refl, refl))))
admits_cpu_kind-Admits VendorKind.mock QuoteKind.tdx h = absurd cc
admits_cpu_kind-Admits VendorKind.mock QuoteKind.snp h = absurd cc

Admits-admits_cpu_kind :
    (kind : VendorKind) (quote : QuoteKind) → Admits kind quote → admits_cpu_kind kind quote ≡ true
unfolding admits_cpu_kind
Admits-admits_cpu_kind kind quote (inl q) = rw q refl
Admits-admits_cpu_kind kind QuoteKind.mock (inr rest) = refl
Admits-admits_cpu_kind kind QuoteKind.tdx (inr (inl k)) = rw k refl
Admits-admits_cpu_kind kind QuoteKind.tdx (inr (inr (inl k))) = rw k refl
Admits-admits_cpu_kind kind QuoteKind.tdx (inr (inr (inr (inl k)))) = rw k.0 refl
Admits-admits_cpu_kind kind QuoteKind.tdx (inr (inr (inr (inr k)))) = absurd (apart k.1)
  where
    apart : QuoteKind.tdx ≡ QuoteKind.snp → ⊥
    apart q = cc
Admits-admits_cpu_kind kind QuoteKind.snp (inr (inl k)) = rw k refl
Admits-admits_cpu_kind kind QuoteKind.snp (inr (inr (inl k))) = rw k refl
Admits-admits_cpu_kind kind QuoteKind.snp (inr (inr (inr (inl k)))) = absurd (apart k.1)
  where
    apart : QuoteKind.snp ≡ QuoteKind.tdx → ⊥
    apart q = cc
Admits-admits_cpu_kind kind QuoteKind.snp (inr (inr (inr (inr k)))) = rw k.0 refl

-- The evidence counts under an identity: the slot takes its quote, the slot's verifier passes it,
-- and the verifier says that this is its identity.
pub record Counted (ctx : VerificationContext) (slot : VendorVerifier) (e : Evidence) (id : List ℕ)
    : Type 0 where
  pub admitted : Admits slot.kind e.cpu_quote_kind
  pub passes : slot.verifier.verify_evidence e ctx ≡ none
  pub identity : slot.verifier.attestation_identity e ≡ some id

pub slot_identity-Counted :
    (ctx : VerificationContext) (slot : VendorVerifier) (e : Evidence) (id : List ℕ)
    → slot_identity slot e ctx ≡ some id
    → Counted ctx slot e id
unfolding slot_identity counted_identity
slot_identity-Counted ctx slot e id h =
    elim (Bool-cases (admits_cpu_kind slot.kind e.cpu_quote_kind)) [
      | inr other ↦ absurd (ground (arith, h, other))
      | inl admitted ↦ elim (Option-cases (slot.verifier.verify_evidence e ctx)) [
        | inr (refused, failed) ↦ absurd (ground (arith, h, admitted, failed))
        | inl passes ↦ record {
          admitted = admits_cpu_kind-Admits slot.kind e.cpu_quote_kind admitted;
          passes = passes;
          identity = ground (arith, h, admitted, passes);
        }
      ]
    ]

pub Counted-slot_identity :
    (ctx : VerificationContext) (slot : VendorVerifier) (e : Evidence) (id : List ℕ)
    → Counted ctx slot e id
    → slot_identity slot e ctx ≡ some id
unfolding slot_identity counted_identity
Counted-slot_identity ctx slot e id c =
    rw (Admits-admits_cpu_kind slot.kind e.cpu_quote_kind c.admitted, c.passes) c.identity
