-- ===== src/Transparency/Path.antt =====
-- crates/ullm-transparency/src/inclusion.rs: the two loops, down the levels of the tree in `build`
-- and up the audit path in `verify`.
pub mod Walk
pub mod Binding
use ullm.Prelude.{
  ℕ, zero, suc, ◌+◌, ◌-◌, ◌/◌, ◌%◌, Bool, ◌==◌, ltb, if◌then◌else◌, List, [], ◌∷◌, Option, none,
  some, length, get_elem?,
}
use ullm.Prelude.Options.{◌>>=◌}
use ullm.Transparency.Entry.{Crates}
use ullm.Transparency.Merkle.{node_hash, next_level}

-- `level[sibling_idx]`, or `level[idx]` where there is no such hash.
unfoldable pub sibling : List (List ℕ) → ℕ → Option (List ℕ)
sibling level idx =
    let sibling_idx = if idx % 2 == 0 then idx + 1 else idx - 1 in
    if ltb sibling_idx (length level) then get_elem? level sibling_idx else get_elem? level idx

module _ (crates : Crates) where
  -- The loop of `build`, with fuel: siblings and directions from the leaf up.
  unfoldable pub walk : ℕ → List (List ℕ) → ℕ → Option (List (List ℕ) × List Bool)
  unfolding sibling next_level
  walk zero level idx = none
  walk (suc fuel) [] idx = some ([], [])
  walk (suc fuel) (x ∷ []) idx = some ([], [])
  walk (suc fuel) (x ∷ y ∷ level) idx = do
    s ← sibling (x ∷ y ∷ level) idx
    (siblings, directions) ← walk fuel (next_level crates (x ∷ y ∷ level)) (idx / 2)
    some (s ∷ siblings, (idx % 2 == 0) ∷ directions)

  unfoldable pub decode32 : List ℕ → Option (List ℕ)
  decode32 s = do bytes ← crates.hex_decode s; if length bytes == 32 then some bytes else none

  -- The loop of `verify`, over the pairs of `zip`.
  unfoldable pub fold_path : List ℕ → List (List ℕ) → List Bool → Option (List ℕ)
  unfolding decode32
  fold_path current [] directions = some current
  fold_path current (s ∷ siblings_hex) [] = some current
  fold_path current (s ∷ siblings_hex) (is_left ∷ directions) = do
    sibling ← decode32 s
    fold_path
        (if is_left then node_hash crates current sibling else node_hash crates sibling current)
        siblings_hex directions
