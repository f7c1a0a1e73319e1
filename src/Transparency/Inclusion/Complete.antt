-- ===== src/Transparency/Inclusion/Complete.antt =====
-- Every entry of a log has a proof, and the proof verifies against the log's root.
use ullm.Prelude.{
  ℕ, ◌<◌, ◌≡◌, refl, Bool, true, false, ◌==◌, leb, List, [], ◌∷◌, map, Option, none, some, zero,
  suc, length, get_elem?, bytes_eq_refl, arith, All, length-map,
}
use mathlib.Core.Path.{subst}
use ullm.Core.{ok, expect}
use ullm.Transparency.Entry.{Crates, LogEntry}
use ullm.Transparency.Merkle.{leaf_hash, merkle_root, empty_root, climb, next_level}
use ullm.Transparency.Path.{walk, fold_path}
use ullm.Transparency.Path.Walk.{IsHash, walk-Leads, decode32-encode, next_level-IsHash}
use ullm.Transparency.Inclusion.{InclusionProof, build, verify}

module _ (crates : Crates) where
  leaf_hash-IsHash : (e : LogEntry) → IsHash (leaf_hash crates e)
  unfolding leaf_hash
  leaf_hash-IsHash e = (crates.length-digest _, crates.digest-IsByte _)

  leaves-IsHash : (entries : List LogEntry) → All IsHash (map (leaf_hash crates) entries)
  leaves-IsHash [] = tt
  leaves-IsHash (e ∷ entries) = (leaf_hash-IsHash e, leaves-IsHash entries)

  climb-IsHash :
      (fuel : ℕ) (level : List (List ℕ)) (root : List ℕ)
      → All IsHash level
      → climb crates fuel level ≡ some root
      → IsHash root
  unfolding climb
  climb-IsHash zero level root a h = cc
  climb-IsHash (suc fuel) [] root a h = cc
  climb-IsHash (suc fuel) (x ∷ []) root a h = subst IsHash (inverse h) a.0
    where
      inverse : {u v : List ℕ} → some u ≡ some v → u ≡ v
      inverse q = cc
  climb-IsHash (suc fuel) (x ∷ y ∷ level) root a h =
      climb-IsHash fuel (next_level crates (x ∷ y ∷ level)) root
        (next_level-IsHash crates (x ∷ y ∷ level)) h

  get_elem?-map :
      (entries : List LogEntry) (i : ℕ) (e : LogEntry)
      → get_elem? entries i ≡ some e
      → get_elem? (map (leaf_hash crates) entries) i ≡ some (leaf_hash crates e)
  get_elem?-map [] i e h = cc
  get_elem?-map (x ∷ entries) zero e h = cc
  get_elem?-map (x ∷ entries) (suc i) e h = get_elem?-map entries i e h

  get_elem?-lt :
      (entries : List LogEntry) (i : ℕ) (e : LogEntry)
      → get_elem? entries i ≡ some e
      → i < length entries
  get_elem?-lt [] i e h = cc
  get_elem?-lt (x ∷ entries) zero e h = omega arith
  get_elem?-lt (x ∷ entries) (suc i) e h = omega (arith, get_elem?-lt entries i e h)

  -- The proof that `build` makes of a path.
  abbrev proof_of : List LogEntry → ℕ → LogEntry → List (List ℕ) → List Bool → InclusionProof
  proof_of entries seq e siblings directions = record {
    seq = seq;
    tree_size = length entries;
    leaf_hash_hex = crates.hex_encode (leaf_hash crates e);
    siblings_hex = map crates.hex_encode siblings;
    directions = directions;
  }

  build-walk :
      (entries : List LogEntry) (seq : ℕ) (e : LogEntry) (siblings : List (List ℕ))
      (directions : List Bool)
      → get_elem? entries seq ≡ some e
      → walk crates (length (map (leaf_hash crates) entries)) (map (leaf_hash crates) entries) seq
        ≡ some (siblings, directions)
      → build crates entries seq ≡ ok (some (proof_of entries seq e siblings directions))
  unfolding build
  build-walk entries seq e siblings directions h w =
      let inside : leb (length entries) seq ≡ false =
        ground (arith, get_elem?-lt entries seq e h) in
      rw (inside, w, get_elem?-map entries seq e h) refl

  merkle_root-climb :
      (x : LogEntry) (entries : List LogEntry) (root : List ℕ)
      → climb crates
          (length (map (leaf_hash crates) (x ∷ entries)))
          (map (leaf_hash crates) (x ∷ entries))
        ≡ some root
      → merkle_root crates (x ∷ entries) ≡ ok root
  unfolding merkle_root
  merkle_root-climb x entries root c = rw c refl

  verify-fold :
      (entries : List LogEntry) (seq : ℕ) (e : LogEntry) (siblings : List (List ℕ))
      (directions : List Bool) (root : List ℕ)
      → length siblings ≡ length directions
      → fold_path crates (leaf_hash crates e) (map crates.hex_encode siblings) directions
        ≡ some root
      → verify crates (proof_of entries seq e siblings directions) root e ≡ true
  unfolding verify
  verify-fold entries seq e siblings directions root paired f =
      let same : (length (map crates.hex_encode siblings) == length directions) ≡ true =
        ground (arith, length-map siblings crates.hex_encode) in
      rw
        (
          same,
          decode32-encode crates (leaf_hash crates e) (leaf_hash-IsHash e),
          bytes_eq_refl (leaf_hash crates e),
          f,
        )
        (bytes_eq_refl root)

  -- For the entry at any position of a log, build returns a proof, the log has a Merkle root (the
  -- fuel is enough), the proof bears the size of the log, and it verifies against this root and
  -- this entry.
  pub build-verify :
      (entries : List LogEntry) (seq : ℕ) (e : LogEntry)
      → get_elem? entries seq ≡ some e
      → (proof : InclusionProof) × (root : List ℕ) × (build crates entries seq ≡ ok (some proof))
        × (merkle_root crates entries ≡ ok root)
        × (proof.tree_size ≡ length entries)
        × (verify crates proof root e ≡ true)
  build-verify [] seq e h = cc
  build-verify (x ∷ entries) seq e h =
      let path =
        walk-Leads crates (length (map (leaf_hash crates) (x ∷ entries))) (leaf_hash crates x)
          (map (leaf_hash crates) entries) seq (leaf_hash crates e) (omega arith)
          (leaves-IsHash (x ∷ entries)) (get_elem?-map (x ∷ entries) seq e h) in
      (
        proof_of (x ∷ entries) seq e path.siblings path.directions,
        path.root,
        build-walk (x ∷ entries) seq e path.siblings path.directions h path.walks,
        merkle_root-climb x entries path.root path.climbs,
        refl,
        verify-fold (x ∷ entries) seq e path.siblings path.directions path.root path.paired
            path.folds,
      )

  ok_of_expect : (o : Option (List ℕ)) (root : List ℕ) → expect o ≡ ok root → o ≡ some root
  ok_of_expect none root h = cc
  ok_of_expect (some r) root h = cc

  pub merkle_root-IsHash :
      (entries : List LogEntry) (root : List ℕ) → merkle_root crates entries ≡ ok root → IsHash root
  unfolding merkle_root
  merkle_root-IsHash [] root h =
      subst IsHash (inverse h)
        (unfold empty_root in (crates.length-digest _, crates.digest-IsByte _))
    where
      inverse : {u v : List ℕ} → ok u ≡ ok v → u ≡ v
      inverse q = cc
  merkle_root-IsHash (x ∷ entries) root h =
      climb-IsHash (length (map (leaf_hash crates) (x ∷ entries)))
        (map (leaf_hash crates) (x ∷ entries)) root (leaves-IsHash (x ∷ entries))
        (ok_of_expect _ root h)
