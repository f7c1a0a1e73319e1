-- ===== src/Transparency/Auditor/Passes.antt =====
-- An audit passes where each of the code's tests does.
use ullm.Prelude.{
  ℕ, ◌≡◌, inl, inr, refl, true, false, ◌==◌, List, Option, none, some, arith, Bool-cases,
}
use ullm.Transparency.Entry.{Crates, LogEntry}
use ullm.Transparency.Path.{decode32}
use ullm.Transparency.Inclusion.{InclusionProof, verify}
use ullm.Transparency.Sth.{Ed25519, SignedTreeHead, verify_head}
use ullm.Transparency.Witness.{WitnessCosignature, WitnessKeyset}
use ullm.Transparency.Auditor.{
  passed, wrong_log, check_witnesses, check_path, verify_inclusion_against_head,
}

module _ (crates : Crates) (ed : Ed25519) where
  -- The tests of the code that a passed audit has passed.
  pub record Passes (sth : SignedTreeHead) (proof : InclusionProof) (e : LogEntry)
      (cosigs : Option (WitnessKeyset × List WitnessCosignature)) (log_id : Option (List ℕ))
      : Type 0 where
    pub signed : verify_head crates ed sth ≡ true
    pub named : wrong_log log_id sth.head.log_id ≡ false
    pub sized : proof.tree_size ≡ sth.head.size
    pub root : List ℕ
    pub decoded : decode32 crates sth.head.root_hex ≡ some root
    pub included : verify crates proof root e ≡ true
    pub witnessed : check_witnesses crates ed sth cosigs ≡ passed

  check_path-inverse :
      (sth : SignedTreeHead) (proof : InclusionProof) (e : LogEntry)
      (cosigs : Option (WitnessKeyset × List WitnessCosignature)) (o : Option (List ℕ))
      → check_path crates ed sth proof e cosigs o ≡ passed
      → (root : List ℕ) × (o ≡ some root)
        × (verify crates proof root e ≡ true)
        × (check_witnesses crates ed sth cosigs ≡ passed)
  unfolding check_path
  check_path-inverse sth proof e cosigs none h = cc
  check_path-inverse sth proof e cosigs (some root) h =
      elim (Bool-cases (verify crates proof root e)) [
        | inl good ↦ (root, refl, good, ground (arith, h, good))
        | inr bad ↦ absurd (ground (arith, h, bad))
      ]

  pub audit-Passes :
      (sth : SignedTreeHead) (proof : InclusionProof) (e : LogEntry)
      (cosigs : Option (WitnessKeyset × List WitnessCosignature)) (log_id : Option (List ℕ))
      → verify_inclusion_against_head crates ed sth proof e cosigs log_id ≡ passed
      → Passes sth proof e cosigs log_id
  unfolding verify_inclusion_against_head
  audit-Passes sth proof e cosigs log_id h =
      let signed : verify_head crates ed sth ≡ true = ground (arith, h) in
      let named : wrong_log log_id sth.head.log_id ≡ false = ground (arith, h, signed) in
      let sized : proof.tree_size ≡ sth.head.size = ground (arith, h, signed, named) in
      let last : check_path crates ed sth proof e cosigs (decode32 crates sth.head.root_hex)
          ≡ passed =
        ground (arith, h, signed, named, sized) in
      let (root, decoded, included, witnessed) = check_path-inverse sth proof e cosigs _ last in
      record {
        signed = signed;
        named = named;
        sized = sized;
        root = root;
        decoded = decoded;
        included = included;
        witnessed = witnessed;
      }

  pub Passes-audit :
      (sth : SignedTreeHead) (proof : InclusionProof) (e : LogEntry)
      (cosigs : Option (WitnessKeyset × List WitnessCosignature)) (log_id : Option (List ℕ))
      → Passes sth proof e cosigs log_id
      → verify_inclusion_against_head crates ed sth proof e cosigs log_id ≡ passed
  unfolding verify_inclusion_against_head
  Passes-audit sth proof e cosigs log_id s =
      let size : (proof.tree_size == sth.head.size) ≡ true = ground (arith, s.sized) in
      rw (s.signed, s.named, size, s.decoded, s.included) s.witnessed
