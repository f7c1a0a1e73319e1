-- ===== src/Federation/MultiVendor/Threshold.antt =====
-- A verification that passes has as many different identities as the threshold asks for.
use ullm.Prelude.{
  ℕ, ◌≤◌, ◌≡◌, ◌⊎◌, ◌↔◌, refl, sym, ap, ◌∙◌, Bool, true, false, ◌||◌, ◌==◌, ltb, List, [], ◌∷◌,
  Option, none, some, length, arith, Bool-cases, inl, inr, bytes_eq, bytes_eq_sound, bytes_eq_refl,
}
use ullm.Core.{ok}
use ullm.Transparency.Witness.{contains}
use ullm.Transparency.Witness.Count.{AllDifferent}
use ullm.Federation.Attestation.{Evidence, VerificationContext}
use ullm.Federation.MultiVendor.Counted.{Counted, slot_identity-Counted, Counted-slot_identity}
use ullm.Federation.MultiVendor.{
  VendorKind, VendorVerifier, MultiVendorVerifier, slot_identity, add_identity, tally,
  verify_vendors,
}

abbrev same_identity : Option (List ℕ) → List ℕ → Bool
same_identity none id = false
same_identity (some x) id = bytes_eq x id

module _ (ctx : VerificationContext) where
  -- Whether some slot's evidence comes to be counted under an identity.
  abbrev identified : List VendorVerifier → List Evidence → List ℕ → Bool
  identified [] evidences id = false
  identified (slot ∷ slots) [] id = false
  identified (slot ∷ slots) (e ∷ evidences) id =
      same_identity (slot_identity slot e ctx) id || identified slots evidences id

  add_identity-AllDifferent :
      (kind : VendorKind) (o : Option (List ℕ)) (kinds : List VendorKind) (ids : List (List ℕ))
      → AllDifferent ids
      → AllDifferent (add_identity kind o (kinds, ids)).1
  unfolding add_identity
  add_identity-AllDifferent kind none kinds ids d = d
  add_identity-AllDifferent kind (some id) kinds ids d = elim (Bool-cases (contains id ids)) [
    | inl there ↦ rw there d
    | inr new ↦ rw new (new, d)
  ]

  contains-add_identity :
      (kind : VendorKind) (o : Option (List ℕ)) (kinds : List VendorKind) (ids : List (List ℕ))
      (q : List ℕ)
      → contains q (add_identity kind o (kinds, ids)).1 ≡ (contains q ids || same_identity o q)
  unfolding add_identity
  contains-add_identity kind none kinds ids q = ground arith
  contains-add_identity kind (some id) kinds ids q = elim (Bool-cases (contains id ids)) [
    | inl there ↦ elim (Bool-cases (bytes_eq id q)) [
      | inl same ↦
          let q_there : contains q ids ≡ true =
            ap (λ x. contains x ids) (sym (bytes_eq_sound id q same)) ∙ there in
          ground (arith, there, same, q_there)
      | inr other ↦ ground (arith, there, other)
    ]
    | inr new ↦ unfold contains in ground (arith, new)
  ]

  tally-AllDifferent :
      (slots : List VendorVerifier) (evidences : List Evidence)
      (passing : List VendorKind × List (List ℕ))
      → AllDifferent passing.1
      → AllDifferent (tally ctx slots evidences passing).1
  unfolding tally
  tally-AllDifferent [] evidences passing d = d
  tally-AllDifferent (slot ∷ slots) [] passing d = d
  tally-AllDifferent (slot ∷ slots) (e ∷ evidences) passing d =
      tally-AllDifferent slots evidences (add_identity slot.kind (slot_identity slot e ctx) passing)
        (add_identity-AllDifferent slot.kind (slot_identity slot e ctx) passing.0 passing.1 d)

  contains-tally :
      (slots : List VendorVerifier) (evidences : List Evidence)
      (passing : List VendorKind × List (List ℕ)) (q : List ℕ)
      → contains q (tally ctx slots evidences passing).1
        ≡ (contains q passing.1 || identified slots evidences q)
  unfolding tally
  contains-tally [] evidences passing q = ground arith
  contains-tally (slot ∷ slots) [] passing q = ground arith
  contains-tally (slot ∷ slots) (e ∷ evidences) passing q = ground (
    arith,
    contains-tally slots evidences (add_identity slot.kind (slot_identity slot e ctx) passing) q,
    contains-add_identity slot.kind (slot_identity slot e ctx) passing.0 passing.1 q,
  )

  -- The evidence of some slot counts under an identity.
  abbrev pub Backed : List VendorVerifier → List Evidence → List ℕ → Type 0
  Backed [] evidences id = ⊥
  Backed (slot ∷ slots) [] id = ⊥
  Backed (slot ∷ slots) (e ∷ evidences) id = Counted ctx slot e id ⊎ Backed slots evidences id

  same_identity-some : (o : Option (List ℕ)) (id : List ℕ) → same_identity o id ≡ true → o ≡ some id
  same_identity-some none id h = cc
  same_identity-some (some x) id h = ap some (bytes_eq_sound x id h)

  identified-Backed :
      (slots : List VendorVerifier) (evidences : List Evidence) (id : List ℕ)
      → identified slots evidences id ≡ true
      → Backed slots evidences id
  identified-Backed [] evidences id h = absurd cc
  identified-Backed (slot ∷ slots) [] id h = absurd cc
  identified-Backed (slot ∷ slots) (e ∷ evidences) id h =
      elim (Bool-cases (same_identity (slot_identity slot e ctx) id)) [
        | inl same ↦ inl (
            slot_identity-Counted ctx slot e id
              (same_identity-some (slot_identity slot e ctx) id same))
        | inr other ↦ inr (identified-Backed slots evidences id (ground (arith, h, other)))
      ]

  Backed-identified :
      (slots : List VendorVerifier) (evidences : List Evidence) (id : List ℕ)
      → Backed slots evidences id
      → identified slots evidences id ≡ true
  Backed-identified [] evidences id backed = absurd backed
  Backed-identified (slot ∷ slots) [] id backed = absurd backed
  Backed-identified (slot ∷ slots) (e ∷ evidences) id (inl counted) =
      rw (Counted-slot_identity ctx slot e id counted, bytes_eq_refl id) refl
  Backed-identified (slot ∷ slots) (e ∷ evidences) id (inr later) =
      ground (arith, Backed-identified slots evidences id later)

  -- A multi-vendor verification that returns has one evidence to each slot and a list of different
  -- identities, at least as many as the threshold. An identity is in the list exactly when some
  -- slot takes the kind of its evidence's CPU quote, its verifier passes the evidence, and the
  -- verifier gives the evidence this identity.
  pub verify_vendors-Threshold :
      (m : MultiVendorVerifier) (evidences : List Evidence) (kinds : List VendorKind)
      → verify_vendors m evidences ctx ≡ ok kinds
      → (length evidences ≡ length m.verifiers)
        × ((ids : List (List ℕ)) × AllDifferent ids
            × (m.threshold_k ≤ length ids)
            × ((q : List ℕ) → (contains q ids ≡ true) ↔ Backed m.verifiers evidences q))
  unfolding verify_vendors
  verify_vendors-Threshold m evidences kinds h =
      let sizes : (length evidences == length m.verifiers) ≡ true = ground (arith, h) in
      let ids = (tally ctx m.verifiers evidences ([], [])).1 in
      let enough : ltb (length ids) m.threshold_k ≡ false = ground (arith, h, sizes) in
      let members : (q : List ℕ) → contains q ids ≡ identified m.verifiers evidences q =
        λ q. unfold contains in contains-tally m.verifiers evidences ([], []) q in
      (
        ground (arith, sizes),
        (
          ids,
          tally-AllDifferent m.verifiers evidences ([], []) tt,
          ground (arith, enough),
          λ q. (
            λ there. identified-Backed m.verifiers evidences q (sym (members q) ∙ there),
            λ backed. members q ∙ Backed-identified m.verifiers evidences q backed,
          ),
        ),
      )
