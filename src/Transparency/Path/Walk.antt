-- ===== src/Transparency/Path/Walk.antt =====
-- The path that `build` collects leads from the leaf to the tree's root.
use ullm.Prelude.{
  ℕ, zero, suc, ◌+◌, ◌-◌, ◌/◌, ◌%◌, ◌≤◌, ◌≡◌, refl, sym, ap, ◌∙◌, Bool, true, false, ◌==◌, ltb,
  if◌then◌else◌, inl, inr, Bool-cases, List, [], ◌∷◌, map, some, length, get_elem?, arith, All,
}
use mathlib.Core.Path.{subst}
use ullm.Core.Bytes.{IsByte}
use ullm.Transparency.Entry.{Crates}
use ullm.Transparency.Merkle.{node_hash, next_level, climb}
use ullm.Transparency.Merkle.Levels.{length-next_level}
use ullm.Transparency.Path.{sibling, walk, decode32, fold_path}

-- What a hash is to the code: 32 bytes.
abbrev pub IsHash : List ℕ → Type 0
IsHash h = (length h ≡ 32) × All IsByte h

sibling_even :
    (level : List (List ℕ)) (i j : ℕ)
    → i % 2 == 0 ≡ true
    → j ≡ i + 1
    → sibling level i ≡ (if ltb j (length level) then get_elem? level j else get_elem? level i)
unfolding sibling
sibling_even level i j even e = rw (e, even) refl

sibling_odd :
    (level : List (List ℕ)) (i j : ℕ)
    → i % 2 == 0 ≡ false
    → j ≡ i - 1
    → sibling level i ≡ (if ltb j (length level) then get_elem? level j else get_elem? level i)
unfolding sibling
sibling_odd level i j odd e = rw (e, odd) refl

sibling_shift :
    (l r : List ℕ) (level : List (List ℕ)) (i : ℕ)
    → sibling (l ∷ r ∷ level) (suc (suc i)) ≡ sibling level i
sibling_shift l r level i = elim (Bool-cases (i % 2 == 0)) [
  | inl even ↦
      sibling_even (l ∷ r ∷ level) (suc (suc i)) (suc (suc (i + 1))) (ground arith) (omega arith)
      ∙ ap (λ b. if b then get_elem? level (i + 1) else get_elem? level i) (ground arith)
      ∙ sym (sibling_even level i (i + 1) even refl)
  | inr odd ↦
      sibling_odd (l ∷ r ∷ level) (suc (suc i)) (suc (suc (i - 1))) (ground arith) (ground arith)
      ∙ ap (λ b. if b then get_elem? level (i - 1) else get_elem? level i) (ground arith)
      ∙ sym (sibling_odd level i (i - 1) odd refl)
]

module _ (crates : Crates) where
  -- The hash and its sibling make the hash above, on the side that the direction says.
  pair_up :
      (level : List (List ℕ)) (idx : ℕ) (h : List ℕ)
      → get_elem? level idx ≡ some h
      → (s : List ℕ) × (sibling level idx ≡ some s)
        × (get_elem? (next_level crates level) (idx / 2)
            ≡ some (if idx % 2 == 0 then node_hash crates h s else node_hash crates s h))
  unfolding next_level
  pair_up [] idx h e = absurd (ground (arith, e))
  pair_up (l ∷ []) zero h e = (l, unfold sibling in refl, ground (arith, e))
  pair_up (l ∷ []) (suc idx) h e = absurd (ground (arith, e))
  pair_up (l ∷ r ∷ level) zero h e =
      (r, sibling_even (l ∷ r ∷ level) 0 1 refl refl ∙ ground arith, ground (arith, e))
  pair_up (l ∷ r ∷ level) (suc zero) h e =
      (l, sibling_odd (l ∷ r ∷ level) 1 0 refl refl ∙ ground arith, ground (arith, e))
  pair_up (l ∷ r ∷ level) (suc (suc i)) h e =
      let (s, found, above) = pair_up level i h e in
      (
        s,
        sibling_shift l r level i ∙ found,
        ap (get_elem? (next_level crates (l ∷ r ∷ level))) halved
            ∙ above
            ∙ ap (λ b. some (if b then node_hash crates h s else node_hash crates s h)) parity,
      )
    where
      halved : suc (suc i) / 2 ≡ suc (i / 2)
      halved = omega arith

      parity : (i % 2 == 0) ≡ (suc (suc i) % 2 == 0)
      parity = ground arith

  node_hash-IsHash : (l r : List ℕ) → IsHash (node_hash crates l r)
  unfolding node_hash
  node_hash-IsHash l r = (crates.length-digest _, crates.digest-IsByte _)

  pub next_level-IsHash : (level : List (List ℕ)) → All IsHash (next_level crates level)
  unfolding next_level
  next_level-IsHash [] = tt
  next_level-IsHash (l ∷ []) = (node_hash-IsHash l l, tt)
  next_level-IsHash (l ∷ r ∷ level) = (node_hash-IsHash l r, next_level-IsHash level)

  pub decode32-encode : (h : List ℕ) → IsHash h → decode32 crates (crates.hex_encode h) ≡ some h
  unfolding decode32
  decode32-encode h is_hash = rw (crates.decode-encode h is_hash.1, is_hash.0) refl

  get_elem?-All :
      (level : List (List ℕ)) (i : ℕ) (h : List ℕ)
      → All IsHash level
      → get_elem? level i ≡ some h
      → IsHash h
  get_elem?-All [] i h a e = cc
  get_elem?-All (x ∷ level) zero h a e = subst IsHash (inverse e) a.0
    where
      inverse : {u v : List ℕ} → some u ≡ some v → u ≡ v
      inverse q = cc
  get_elem?-All (x ∷ level) (suc i) h a e = get_elem?-All level i h a.1 e

  sibling-IsHash :
      (level : List (List ℕ)) (i : ℕ) (h : List ℕ)
      → All IsHash level
      → sibling level i ≡ some h
      → IsHash h
  unfolding sibling
  sibling-IsHash level i h a e =
      either (ltb (if i % 2 == 0 then i + 1 else i - 1) (length level))
        (if i % 2 == 0 then i + 1 else i - 1) e
    where
      either :
          (b : Bool) (j : ℕ)
          → (if b then get_elem? level j else get_elem? level i) ≡ some h
          → IsHash h
      either true j q = get_elem?-All level j h a q
      either false j q = get_elem?-All level i h a q

  -- From a hash of a level, the walk collects a path, the climb reaches a root, and the path read
  -- back from its printed form folds to this root.
  pub record Leads (fuel : ℕ) (level : List (List ℕ)) (idx : ℕ) (h : List ℕ) : Type 0 where
    pub siblings : List (List ℕ)
    pub directions : List Bool
    pub root : List ℕ
    pub walks : walk crates fuel level idx ≡ some (siblings, directions)
    pub climbs : climb crates fuel level ≡ some root
    pub folds : fold_path crates h (map crates.hex_encode siblings) directions ≡ some root
    pub paired : length siblings ≡ length directions

  pub walk-Leads :
      (fuel : ℕ) (x : List ℕ) (level : List (List ℕ)) (idx : ℕ) (h : List ℕ)
      → length (x ∷ level) ≤ fuel
      → All IsHash (x ∷ level)
      → get_elem? (x ∷ level) idx ≡ some h
      → Leads fuel (x ∷ level) idx h
  unfolding walk climb fold_path
  walk-Leads zero x level idx h enough hashes e = absurd (omega arith)
  walk-Leads (suc fuel) x [] zero h enough hashes e = record {
    siblings = [];
    directions = [];
    root = x;
    walks = refl;
    climbs = refl;
    folds = sym e;
    paired = refl;
  }
  walk-Leads (suc fuel) x [] (suc idx) h enough hashes e = absurd (ground (arith, e))
  walk-Leads (suc fuel) x (y ∷ level) idx h enough hashes e =
      let (s, found, above) = pair_up (x ∷ y ∷ level) idx h e in
      let rest : Leads fuel (next_level crates (x ∷ y ∷ level)) (idx / 2)
          (if idx % 2 == 0 then node_hash crates h s else node_hash crates s h) =
        unfold next_level in
        walk-Leads fuel (node_hash crates x y) (next_level crates level) (idx / 2) _
          (omega (arith, length-next_level crates level)) (next_level-IsHash (x ∷ y ∷ level))
          above in
      record {
        siblings = s ∷ rest.siblings;
        directions = (idx % 2 == 0) ∷ rest.directions;
        root = rest.root;
        walks = rw (found, rest.walks) refl;
        climbs = rest.climbs;
        folds =
            rw (decode32-encode s (sibling-IsHash (x ∷ y ∷ level) idx s hashes found)) rest.folds;
        paired = ap suc rest.paired;
      }
