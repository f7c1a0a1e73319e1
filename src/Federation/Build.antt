-- ===== src/Federation/Build.antt =====
-- crates/ullm-federation/src/build.rs: a verifier that also asks for an admitted build.
use ullm.Prelude.{
  ℕ, ◌≡◌, refl, true, not, ◌==◌, if◌then◌else◌, List, [], ◌∷◌, Option, none, some, length, arith,
}
use ullm.Core.{Error}
use ullm.Transparency.Witness.{contains}
use ullm.Federation.Attestation.{Evidence, VerificationContext, Verifier}

pub record ReproducibleBuildVerifier : Type 0 where
  pub inner : Verifier
  pub allowed_builds : List (List ℕ)

-- `cert_chain.last()`
unfoldable pub last : List (List ℕ) → Option (List ℕ)
last [] = none
last (c ∷ []) = some c
last (c ∷ d ∷ chain) = last (d ∷ chain)

unfoldable pub check_carrier : List (List ℕ) → Option (List ℕ) → Option Error
check_carrier allowed none = some Error.attestation_failed
check_carrier allowed (some carrier) =
    if not (length carrier == 32)
    then some Error.attestation_failed
    else if not (contains carrier allowed)
    then some Error.attestation_failed
    else none

unfoldable pub check_build : ReproducibleBuildVerifier → Evidence → Option Error → Option Error
unfolding check_carrier
check_build v evidence (some refused) = some refused
check_build v evidence none = check_carrier v.allowed_builds (last evidence.cert_chain)

-- The trait's two methods of the wrapper.
unfoldable pub build_verifier : ReproducibleBuildVerifier → Verifier
unfolding check_build
build_verifier v = record {
  verify_evidence = λ evidence ctx. check_build v evidence (v.inner.verify_evidence evidence ctx);
  attestation_identity = λ evidence. v.inner.attestation_identity evidence;
}

check_carrier-none :
    (allowed : List (List ℕ)) (o : Option (List ℕ))
    → check_carrier allowed o ≡ none
    → (carrier : List ℕ) × (o ≡ some carrier)
      × (length carrier ≡ 32)
      × (contains carrier allowed ≡ true)
unfolding check_carrier
check_carrier-none allowed none h = cc
check_carrier-none allowed (some carrier) h =
    let size : (length carrier == 32) ≡ true = ground (arith, h) in
    (carrier, refl, ground (arith, size), ground (arith, h, size))

check_build-none :
    (v : ReproducibleBuildVerifier) (evidence : Evidence) (o : Option Error)
    → check_build v evidence o ≡ none
    → (o ≡ none)
      × ((carrier : List ℕ) × (last evidence.cert_chain ≡ some carrier)
          × (length carrier ≡ 32)
          × (contains carrier v.allowed_builds ≡ true))
unfolding check_build
check_build-none v evidence (some refused) h = cc
check_build-none v evidence none h =
    (refl, check_carrier-none v.allowed_builds (last evidence.cert_chain) h)

-- Evidence that the wrapper passes has passed the inner verifier, and the last certificate of its
-- chain is an admitted build hash of 32 bytes.
pub build_verifier-Admits :
    (v : ReproducibleBuildVerifier) (evidence : Evidence) (ctx : VerificationContext)
    → (build_verifier v).verify_evidence evidence ctx ≡ none
    → (v.inner.verify_evidence evidence ctx ≡ none)
      × ((carrier : List ℕ) × (last evidence.cert_chain ≡ some carrier)
          × (length carrier ≡ 32)
          × (contains carrier v.allowed_builds ≡ true))
unfolding build_verifier
build_verifier-Admits v evidence ctx h =
    check_build-none v evidence (v.inner.verify_evidence evidence ctx) h
