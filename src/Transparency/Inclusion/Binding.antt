-- ===== src/Transparency/Inclusion/Binding.antt =====
-- A verified proof binds its place in the tree to one entry.
use ullm.Prelude.{
  ℕ, ◌≡◌, ◌⊎◌, inl, inr, sym, ◌∙◌, true, ◌==◌, List, ◌∷◌, ◌++◌, Option, none, some, length, arith,
  bytes_eq_sound, Bool-cases, ap,
}
use mathlib.Core.Path.{subst}
use ullm.Transparency.Entry.{Crates, LogEntry, canonical_bytes}
use ullm.Transparency.Merkle.{leaf_domain, leaf_hash}
use ullm.Transparency.Path.{decode32, fold_path}
use ullm.Transparency.Path.Binding.{Clash, hashed, Clash-cons, Collide-Clash, fold_path-inverse}
use ullm.Prelude.Digest.{Collide, digest-inverse, prefix-inverse}
use ullm.Transparency.Inclusion.{InclusionProof, verify, root_is, claims}

root_is-some : (root : List ℕ) (o : Option (List ℕ)) → root_is root o ≡ true → o ≡ some root
unfolding root_is
root_is-some root none h = cc
root_is-some root (some c) h = ap some (bytes_eq_sound c root h)

module _ (crates : Crates) where
  -- What a verified proof has passed.
  pub verify-inverse :
      (p : InclusionProof) (root : List ℕ) (e : LogEntry)
      → verify crates p root e ≡ true
      → (length p.siblings_hex ≡ length p.directions)
        × (fold_path crates (leaf_hash crates e) p.siblings_hex p.directions ≡ some root)
  unfolding verify
  verify-inverse p root e h = elim (Bool-cases (length p.siblings_hex == length p.directions)) [
    | inr other ↦ absurd (ground (arith, h, other))
    | inl same ↦ elim (Bool-cases (claims (leaf_hash crates e) (decode32 crates p.leaf_hash_hex))) [
      | inr wrong ↦ absurd (ground (arith, h, same, wrong))
      | inl right ↦ (ground (arith, same), root_is-some root _ (ground (arith, h, same, right)))
    ]
  ]

  length-leaf_hash : (e : LogEntry) → length (leaf_hash crates e) ≡ 32
  unfolding leaf_hash
  length-leaf_hash e = crates.length-digest _

  leaf_hash-inverse :
      (e f : LogEntry)
      → leaf_hash crates e ≡ leaf_hash crates f
      → (canonical_bytes crates e ≡ canonical_bytes crates f)
        ⊎ Collide crates.digest
            (leaf_domain ++ canonical_bytes crates e)
            (leaf_domain ++ canonical_bytes crates f)
  unfolding leaf_hash
  leaf_hash-inverse e f h = elim (digest-inverse crates.digest _ _ h) [
    | inl same ↦
        inl (prefix-inverse leaf_domain (canonical_bytes crates e) (canonical_bytes crates f) same)
    | inr clash ↦ inr clash
  ]

  -- The texts that the verification of a proof hashes: the leaf's, then one for each step up.
  abbrev pub texts : InclusionProof → LogEntry → List (List ℕ)
  texts p e =
      (leaf_domain ++ canonical_bytes crates e)
      ∷ hashed crates (leaf_hash crates e) p.siblings_hex p.directions

  -- Two inclusion proofs with the same directions that verify against one root are of entries with
  -- the same canonical bytes, or one of the texts that the first verification hashes differs from
  -- one that the second hashes, and the two have one SHA-256 digest.
  pub verify-Binding :
      (p q : InclusionProof) (root : List ℕ) (e f : LogEntry)
      → p.directions ≡ q.directions
      → verify crates p root e ≡ true
      → verify crates q root f ≡ true
      → (canonical_bytes crates e ≡ canonical_bytes crates f) ⊎ Clash crates (texts p e) (texts q f)
  verify-Binding p q root e f same vp vq =
      let (paired, folds) = verify-inverse p root e vp in
      let (paired', folds') = verify-inverse q root f vq in
      elim (fold_path-inverse crates p.siblings_hex q.siblings_hex p.directions (leaf_hash crates e)
        (leaf_hash crates f) root paired (paired' ∙ ap length (sym same)) (length-leaf_hash e)
        (length-leaf_hash f) folds
        (ap (fold_path crates (leaf_hash crates f) q.siblings_hex) same ∙ folds')) [
          | inl leaf ↦ elim (leaf_hash-inverse e f leaf) [
            | inl bytes ↦ inl bytes
            | inr clash ↦ inr (Collide-Clash crates _ _ _ _ clash)
          ]
          | inr clash ↦ inr (
              subst
                (λ d. Clash crates (texts p e) (
                  (leaf_domain ++ canonical_bytes crates f)
                  ∷ hashed crates (leaf_hash crates f) q.siblings_hex d))
                same (Clash-cons crates _ _ _ _ clash))
        ]
