-- ===== src/Transparency/Auditor.antt =====
-- crates/ullm-transparency/src/auditor.rs: the tree head's signature, the log's name, the witnesses
-- and the inclusion proof checked in one call.
pub mod Audits
pub mod Passes
use ullm.Prelude.{
  ℕ, Bool, true, false, not, ◌==◌, ltb, if◌then◌else◌, List, [], Option, none, some, bytes_eq,
}
use ullm.Transparency.Entry.{Crates, LogEntry}
use ullm.Transparency.Path.{decode32}
use ullm.Transparency.Inclusion.{InclusionProof, verify}
use ullm.Transparency.Sth.{Ed25519, SignedTreeHead, verify_head}
use ullm.Transparency.Witness.{WitnessCosignature, WitnessKeyset, count_valid}

pub data AuditError : Type 0 where
  stored_signature_invalid : AuditError
  unexpected_log_id : List ℕ → List ℕ → AuditError
  inclusion_path_invalid : AuditError
  size_mismatch : ℕ → ℕ → AuditError
  insufficient_witnesses : ℕ → ℕ → AuditError

-- `Result<(), AuditError>`
pub data Audit : Type 0 where
  passed : Audit
  failed : AuditError → Audit

-- `expected_log_id`, where there is one, differs from the head's.
unfoldable pub wrong_log : Option (List ℕ) → List ℕ → Bool
wrong_log none log_id = false
wrong_log (some want) log_id = not (bytes_eq log_id want)

unfoldable pub wanted : Option (List ℕ) → List ℕ
wanted none = []
wanted (some want) = want

module _ (crates : Crates) (ed : Ed25519) where
  -- The last test: enough witnesses, where a keyset is given.
  unfoldable pub check_witnesses :
      SignedTreeHead → Option (WitnessKeyset × List WitnessCosignature) → Audit
  check_witnesses sth none = passed
  check_witnesses sth (some (keyset, cosigs)) =
      let got = count_valid ed keyset sth cosigs in
      if ltb got keyset.threshold
      then failed (insufficient_witnesses got keyset.threshold)
      else passed

  -- The test of the path, against the root where it decodes, and what follows it.
  unfoldable pub check_path :
      SignedTreeHead
      → InclusionProof
      → LogEntry
      → Option (WitnessKeyset × List WitnessCosignature)
      → Option (List ℕ)
      → Audit
  unfolding check_witnesses
  check_path sth proof expected_entry cosigs none = failed inclusion_path_invalid
  check_path sth proof expected_entry cosigs (some root_bytes) =
      if not (verify crates proof root_bytes expected_entry)
      then failed inclusion_path_invalid
      else check_witnesses sth cosigs

  unfoldable pub verify_inclusion_against_head :
      SignedTreeHead
      → InclusionProof
      → LogEntry
      → Option (WitnessKeyset × List WitnessCosignature)
      → Option (List ℕ)
      → Audit
  unfolding check_path wrong_log wanted
  verify_inclusion_against_head sth proof expected_entry cosigs expected_log_id =
      if not (verify_head crates ed sth)
      then failed stored_signature_invalid
      else if wrong_log expected_log_id sth.head.log_id
      then failed (unexpected_log_id sth.head.log_id (wanted expected_log_id))
      else if not (proof.tree_size == sth.head.size)
      then failed (size_mismatch proof.tree_size sth.head.size)
      else check_path sth proof expected_entry cosigs (decode32 crates sth.head.root_hex)
