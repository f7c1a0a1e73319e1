-- ===== src/Federation/MultiVendor.antt =====
-- crates/ullm-federation/src/multi_vendor.rs: k of n attestations, counted by identity.
pub mod Counted
pub mod Threshold
use ullm.Prelude.{
  ℕ, Bool, true, false, not, ◌||◌, ◌==◌, ltb, if◌then◌else◌, List, [], ◌∷◌, Option, none, some,
  length,
}
use ullm.Core.{Error, Result, ok, err, ◌>>=◌, ◌>>◌, refuse_if}
use ullm.Transparency.Witness.{contains}
use ullm.Federation.Attestation.{QuoteKind, Evidence, VerificationContext, Verifier}

pub data VendorKind : Type 0 where
  tdx snp nvidia arm mock : VendorKind

-- The discriminant, by which kinds are compared.
unfoldable pub kind_index : VendorKind → ℕ
kind_index VendorKind.tdx = 0
kind_index VendorKind.snp = 1
kind_index VendorKind.nvidia = 2
kind_index VendorKind.arm = 3
kind_index VendorKind.mock = 4

unfoldable pub admits_cpu_kind : VendorKind → QuoteKind → Bool
admits_cpu_kind kind QuoteKind.mock = true
admits_cpu_kind VendorKind.tdx QuoteKind.tdx = true
admits_cpu_kind VendorKind.snp QuoteKind.snp = true
admits_cpu_kind VendorKind.nvidia quote = true
admits_cpu_kind VendorKind.arm quote = true
admits_cpu_kind kind quote = false

-- `HashSet<VendorKind>::contains`
unfoldable pub has_kind : VendorKind → List VendorKind → Bool
has_kind kind [] = false
has_kind kind (k ∷ kinds) = kind_index k == kind_index kind || has_kind kind kinds

unfoldable pub insert_kind : VendorKind → List VendorKind → List VendorKind
insert_kind kind kinds = if has_kind kind kinds then kinds else kind ∷ kinds

pub record VendorVerifier : Type 0 where
  pub kind : VendorKind
  pub verifier : Verifier

pub record MultiVendorVerifier : Type 0 where
  pub verifiers : List VendorVerifier
  pub threshold_k : ℕ

-- The loop of `new`: every kind once.
unfoldable pub check_kinds : List VendorVerifier → List VendorKind → Result (Unit {0})
check_kinds [] kinds = ok tt
check_kinds (v ∷ verifiers) kinds =
    refuse_if (has_kind v.kind kinds) Error.other >> check_kinds verifiers (v.kind ∷ kinds)

unfoldable pub new_verifier : List VendorVerifier → ℕ → Result MultiVendorVerifier
unfolding check_kinds
new_verifier verifiers threshold_k =
    refuse_if (threshold_k == 0 || ltb (length verifiers) threshold_k) Error.other
    >> check_kinds verifiers []
    >> ok (record { verifiers = verifiers; threshold_k = threshold_k })

-- The identity of the evidence where it comes to be counted.
unfoldable pub counted_identity : VendorVerifier → Evidence → Option Error → Option (List ℕ)
counted_identity slot evidence (some refused) = none
counted_identity slot evidence none = slot.verifier.attestation_identity evidence

unfoldable pub slot_identity : VendorVerifier → Evidence → VerificationContext → Option (List ℕ)
unfolding counted_identity
slot_identity slot evidence ctx =
    if not (admits_cpu_kind slot.kind evidence.cpu_quote_kind)
    then none
    else counted_identity slot evidence (slot.verifier.verify_evidence evidence ctx)

unfoldable pub add_identity :
    VendorKind → Option (List ℕ) → List VendorKind × List (List ℕ) → List VendorKind × List (List ℕ)
add_identity kind none passing = passing
add_identity kind (some id) (kinds, ids) =
    if contains id ids then (kinds, ids) else (insert_kind kind kinds, id ∷ ids)

-- The loop of `verify`, over the pairs of `zip`: the passing kinds and the passing identities.
unfoldable pub tally :
    VerificationContext
    → List VendorVerifier
    → List Evidence
    → List VendorKind × List (List ℕ)
    → List VendorKind × List (List ℕ)
unfolding slot_identity add_identity
tally ctx [] evidences passing = passing
tally ctx (slot ∷ slots) [] passing = passing
tally ctx (slot ∷ slots) (e ∷ evidences) passing =
    tally ctx slots evidences (add_identity slot.kind (slot_identity slot e ctx) passing)

unfoldable pub verify_vendors :
    MultiVendorVerifier → List Evidence → VerificationContext → Result (List VendorKind)
unfolding tally
verify_vendors m evidences ctx =
    if not (length evidences == length m.verifiers)
    then err Error.other
    else let passing = tally ctx m.verifiers evidences ([], []) in
      if ltb (length passing.1) m.threshold_k then err Error.attestation_failed else ok passing.0
