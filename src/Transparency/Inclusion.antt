-- ===== src/Transparency/Inclusion.antt =====
-- crates/ullm-transparency/src/inclusion.rs: proofs that an entry is in the tree.
pub mod Complete
pub mod Binding
use ullm.Prelude.{
  ℕ, Bool, false, not, ◌==◌, leb, if◌then◌else◌, List, map, Option, none, some, length, get_elem?,
  bytes_eq,
}
use ullm.Core.{Result, ok, expect, ◌>>=◌}
use ullm.Transparency.Entry.{Crates, LogEntry}
use ullm.Transparency.Merkle.{leaf_hash}
use ullm.Transparency.Path.{walk, decode32, fold_path}

pub record InclusionProof : Type 0 where
  pub seq : ℕ
  pub tree_size : ℕ
  pub leaf_hash_hex : List ℕ
  pub siblings_hex : List (List ℕ)
  pub directions : List Bool

unfoldable pub root_is : List ℕ → Option (List ℕ) → Bool
root_is expected_root none = false
root_is expected_root (some current) = bytes_eq current expected_root

unfoldable pub claims : List ℕ → Option (List ℕ) → Bool
claims expected_leaf none = false
claims expected_leaf (some claimed_leaf) = bytes_eq claimed_leaf expected_leaf

module _ (crates : Crates) where
  unfoldable pub build : List LogEntry → ℕ → Result (Option InclusionProof)
  unfolding walk
  build entries seq =
      if leb (length entries) seq
      then ok none
      else let leaves = map (leaf_hash crates) entries in
        expect (walk crates (length leaves) leaves seq) >>= λ p.
        expect (get_elem? leaves seq) >>= λ leaf. ok (
          some (record {
            seq = seq;
            tree_size = length entries;
            leaf_hash_hex = crates.hex_encode leaf;
            siblings_hex = map crates.hex_encode p.0;
            directions = p.1;
          }))

  unfoldable pub verify : InclusionProof → List ℕ → LogEntry → Bool
  unfolding fold_path root_is claims
  verify proof expected_root expected_entry =
      if not (length proof.siblings_hex == length proof.directions)
      then false
      else let expected_leaf = leaf_hash crates expected_entry in
        if not (claims expected_leaf (decode32 crates proof.leaf_hash_hex))
        then false
        else root_is expected_root
            (fold_path crates expected_leaf proof.siblings_hex proof.directions)
