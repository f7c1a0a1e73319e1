-- ===== src/Transparency/Merkle.antt =====
-- crates/ullm-transparency/src/merkle.rs: the tree of hashes over the log's entries.
pub mod Levels
use ullm.Prelude.{ℕ, zero, suc, List, [], ◌∷◌, ◌++◌, map, Option, none, some, length}
use ullm.Core.{Result, ok, expect}
use ullm.Transparency.Entry.{Crates, LogEntry, canonical_bytes}

abbrev pub leaf_domain : List ℕ
leaf_domain =
    85 ∷ 76 ∷ 76 ∷ 77 ∷ 45 ∷ 116 ∷ 114 ∷ 97 ∷ 110 ∷ 115 ∷ 112 ∷ 97 ∷ 114 ∷ 101 ∷ 110 ∷ 99 ∷ 121 ∷ 45
    ∷ 118 ∷ 49 ∷ 32 ∷ 108 ∷ 101 ∷ 97 ∷ 102 ∷ []

abbrev pub node_domain : List ℕ
node_domain =
    85 ∷ 76 ∷ 76 ∷ 77 ∷ 45 ∷ 116 ∷ 114 ∷ 97 ∷ 110 ∷ 115 ∷ 112 ∷ 97 ∷ 114 ∷ 101 ∷ 110 ∷ 99 ∷ 121 ∷ 45
    ∷ 118 ∷ 49 ∷ 32 ∷ 110 ∷ 111 ∷ 100 ∷ 101 ∷ []

abbrev pub empty_domain : List ℕ
empty_domain =
    85 ∷ 76 ∷ 76 ∷ 77 ∷ 45 ∷ 116 ∷ 114 ∷ 97 ∷ 110 ∷ 115 ∷ 112 ∷ 97 ∷ 114 ∷ 101 ∷ 110 ∷ 99 ∷ 121 ∷ 45
    ∷ 118 ∷ 49 ∷ 32 ∷ 101 ∷ 109 ∷ 112 ∷ 116 ∷ 121 ∷ []

module _ (crates : Crates) where
  unfoldable pub empty_root : List ℕ
  empty_root = crates.digest empty_domain

  unfoldable pub leaf_hash : LogEntry → List ℕ
  leaf_hash e = crates.digest (leaf_domain ++ canonical_bytes crates e)

  unfoldable pub node_hash : List ℕ → List ℕ → List ℕ
  node_hash left right = crates.digest (node_domain ++ left ++ right)

  -- The inner loop: hashes in pairs, the last one with itself where it is alone.
  unfoldable pub next_level : List (List ℕ) → List (List ℕ)
  next_level [] = []
  next_level (l ∷ []) = node_hash l l ∷ []
  next_level (l ∷ r ∷ level) = node_hash l r ∷ next_level level

  -- The outer loop, with fuel: nothing when the fuel is out before one hash is left.
  unfoldable pub climb : ℕ → List (List ℕ) → Option (List ℕ)
  unfolding next_level
  climb zero level = none
  climb (suc fuel) [] = none
  climb (suc fuel) (x ∷ []) = some x
  climb (suc fuel) (x ∷ y ∷ level) = climb fuel (next_level (x ∷ y ∷ level))

  unfoldable pub root_of_leaves : List (List ℕ) → Result (List ℕ)
  unfolding climb
  root_of_leaves [] = ok empty_root
  root_of_leaves (x ∷ leaves) = expect (climb (length (x ∷ leaves)) (x ∷ leaves))

  unfoldable pub merkle_root : List LogEntry → Result (List ℕ)
  unfolding root_of_leaves
  merkle_root [] = ok empty_root
  merkle_root (e ∷ entries) = root_of_leaves (map leaf_hash (e ∷ entries))
