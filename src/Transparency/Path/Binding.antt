-- ===== src/Transparency/Path/Binding.antt =====
-- Where audit paths that fold to one root start, and the texts that they hash.
use ullm.Prelude.{
  ℕ, ◌≡◌, ◌⊎◌, inl, inr, refl, sym, ◌∙◌, Bool, true, false, ◌==◌, if◌then◌else◌, List, [], ◌∷◌,
  ◌++◌, Option, none, some, length, arith,
}
use ullm.Prelude.Digest.{Collide, append-inverse, prefix-inverse, digest-inverse}
use ullm.Prelude.Options.{◌>>=◌}
use mathlib.Core.List.{Mem, mem-cons_self, mem-cons}
use mathlib.Core.Logic.Or
use mathlib.Core.Path.{ap, subst}
use ullm.Transparency.Entry.{Crates}
use ullm.Transparency.Merkle.{node_domain, node_hash}
use ullm.Transparency.Path.{decode32, fold_path}

-- A text of one list and a text of another that differ and have one digest.
pub record Clash (crates : Crates) (xs ys : List (List ℕ)) : Type 0 where
  pub first : List ℕ
  pub second : List ℕ
  pub first_hashed : Mem first xs
  pub second_hashed : Mem second ys
  pub clash : Collide crates.digest first second

-- What is hashed where a sibling decodes, and nothing where it does not.
abbrev after_sibling :
    (List ℕ → List ℕ) → (List ℕ → List (List ℕ)) → Option (List ℕ) → List (List ℕ)
after_sibling text above none = []
after_sibling text above (some t) = text t ∷ above t

module _ (crates : Crates) where
  node_hash-inverse :
      (l r l' r' : List ℕ)
      → length l ≡ length l'
      → node_hash crates l r ≡ node_hash crates l' r'
      → ((l ≡ l') × (r ≡ r'))
        ⊎ Collide crates.digest (node_domain ++ l ++ r) (node_domain ++ l' ++ r')
  unfolding node_hash
  node_hash-inverse l r l' r' h e =
      elim (digest-inverse crates.digest (node_domain ++ l ++ r) (node_domain ++ l' ++ r') e) [
        | inl same ↦
            inl (append-inverse l r l' r' h (prefix-inverse node_domain (l ++ r) (l' ++ r') same))
        | inr clash ↦ inr clash
      ]

  pub decode32-length : (s h : List ℕ) → decode32 crates s ≡ some h → length h ≡ 32
  unfolding decode32
  decode32-length s h e = long (crates.hex_decode s) e
    where
      long :
          (o : Option (List ℕ))
          → (o >>= λ bytes. if length bytes == 32 then some bytes else none) ≡ some h
          → length h ≡ 32
      long none q = cc
      long (some bytes) q = ground (arith, q)

  length-node_hash : (l r : List ℕ) → length (node_hash crates l r) ≡ 32
  unfolding node_hash
  length-node_hash l r = crates.length-digest _

  -- The text that one step up a path hashes.
  abbrev step_text : Bool → List ℕ → List ℕ → List ℕ
  step_text b c t = if b then node_domain ++ c ++ t else node_domain ++ t ++ c

  -- The texts that the walk up a path hashes, from the bottom on.
  abbrev pub hashed : List ℕ → List (List ℕ) → List Bool → List (List ℕ)
  hashed c [] directions = []
  hashed c (s ∷ ss) [] = []
  hashed c (s ∷ ss) (b ∷ directions) =
      after_sibling (step_text b c)
        (λ t. hashed (if b then node_hash crates c t else node_hash crates t c) ss directions)
        (decode32 crates s)

  hashed_step :
      (b : Bool) (c s t : List ℕ) (ss : List (List ℕ)) (directions : List Bool)
      → decode32 crates s ≡ some t
      → hashed c (s ∷ ss) (b ∷ directions)
        ≡ step_text b c t
          ∷ hashed (if b then node_hash crates c t else node_hash crates t c) ss directions
  hashed_step b c s t ss directions d =
      ap
        (after_sibling (step_text b c)
          (λ x. hashed (if b then node_hash crates c x else node_hash crates x c) ss directions))
        d

  pub Clash-cons :
      (x y : List ℕ) (xs ys : List (List ℕ)) → Clash crates xs ys → Clash crates (x ∷ xs) (y ∷ ys)
  Clash-cons x y xs ys c = record {
    first = c.first;
    second = c.second;
    first_hashed = mem-cons.1 (Or.inr c.first_hashed);
    second_hashed = mem-cons.1 (Or.inr c.second_hashed);
    clash = c.clash;
  }

  pub Collide-Clash :
      (x y : List ℕ) (xs ys : List (List ℕ))
      → Collide crates.digest x y
      → Clash crates (x ∷ xs) (y ∷ ys)
  Collide-Clash x y xs ys c = record {
    first = x;
    second = y;
    first_hashed = mem-cons_self;
    second_hashed = mem-cons_self;
    clash = c;
  }

  -- One step up: paths that meet above had met below.
  step-inverse :
      (b : Bool) (c s c' s' : List ℕ)
      → length c ≡ 32
      → length c' ≡ 32
      → length s ≡ 32
      → length s' ≡ 32
      → (if b then node_hash crates c s else node_hash crates s c)
        ≡ (if b then node_hash crates c' s' else node_hash crates s' c')
      → (c ≡ c') ⊎ Collide crates.digest (step_text b c s) (step_text b c' s')
  step-inverse true c s c' s' hc hc' hs hs' e =
      elim (node_hash-inverse c s c' s' (hc ∙ sym hc') e) [
        | inl same ↦ inl same.0
        | inr clash ↦ inr clash
      ]
  step-inverse false c s c' s' hc hc' hs hs' e =
      elim (node_hash-inverse s c s' c' (hs ∙ sym hs') e) [
        | inl same ↦ inl same.1
        | inr clash ↦ inr clash
      ]

  length-step :
      (b : Bool) (c s : List ℕ)
      → length (if b then node_hash crates c s else node_hash crates s c) ≡ 32
  length-step true c s = length-node_hash c s
  length-step false c s = length-node_hash s c

  -- Two paths with the same directions that fold to one root start at one hash, or two of the texts
  -- that they hash collide.
  pub fold_path-inverse :
      (ss ss' : List (List ℕ)) (directions : List Bool) (c c' root : List ℕ)
      → length ss ≡ length directions
      → length ss' ≡ length directions
      → length c ≡ 32
      → length c' ≡ 32
      → fold_path crates c ss directions ≡ some root
      → fold_path crates c' ss' directions ≡ some root
      → (c ≡ c') ⊎ Clash crates (hashed c ss directions) (hashed c' ss' directions)
  unfolding fold_path
  fold_path-inverse [] [] directions c c' root h h' hc hc' e e' = inl cc
  fold_path-inverse [] (s' ∷ ss') directions c c' root h h' hc hc' e e' = absurd (omega arith)
  fold_path-inverse (s ∷ ss) [] directions c c' root h h' hc hc' e e' = absurd (omega arith)
  fold_path-inverse (s ∷ ss) (s' ∷ ss') [] c c' root h h' hc hc' e e' = absurd (omega arith)
  fold_path-inverse (s ∷ ss) (s' ∷ ss') (b ∷ directions) c c' root h h' hc hc' e e' =
      meet
        (λ t t' q q'.
          fold_path-inverse ss ss' directions (up c t) (up c' t') root (omega arith) (omega arith)
            (length-step b c t) (length-step b c' t') q q')
        (decode32 crates s) (decode32 crates s') refl refl e e'
    where
      up : List ℕ → List ℕ → List ℕ
      up x t = if b then node_hash crates x t else node_hash crates t x

      lift :
          (t t' : List ℕ)
          → decode32 crates s ≡ some t
          → decode32 crates s' ≡ some t'
          → Clash crates
              (step_text b c t ∷ hashed (up c t) ss directions)
              (step_text b c' t' ∷ hashed (up c' t') ss' directions)
          → Clash crates
              (hashed c (s ∷ ss) (b ∷ directions))
              (hashed c' (s' ∷ ss') (b ∷ directions))
      lift t t' d d' clash =
          subst (λ xs. Clash crates xs (hashed c' (s' ∷ ss') (b ∷ directions)))
            (sym (hashed_step b c s t ss directions d))
            (subst (Clash crates (step_text b c t ∷ hashed (up c t) ss directions))
              (sym (hashed_step b c' s' t' ss' directions d')) clash)

      meet :
          ((t t' : List ℕ)
            → fold_path crates (up c t) ss directions ≡ some root
            → fold_path crates (up c' t') ss' directions ≡ some root
            → (up c t ≡ up c' t')
              ⊎ Clash crates (hashed (up c t) ss directions) (hashed (up c' t') ss' directions))
          → (o o' : Option (List ℕ)) → decode32 crates s ≡ o
          → decode32 crates s' ≡ o'
          → (o >>= λ t. fold_path crates (up c t) ss directions) ≡ some root
          → (o' >>= λ t. fold_path crates (up c' t) ss' directions) ≡ some root
          → (c ≡ c')
            ⊎ Clash crates
                (hashed c (s ∷ ss) (b ∷ directions))
                (hashed c' (s' ∷ ss') (b ∷ directions))
      meet above none o' d d' q q' = cc
      meet above (some t) none d d' q q' = cc
      meet above (some t) (some t') d d' q q' = elim (above t t' q q') [
        | inl same ↦
            elim (step-inverse b c t c' t' hc hc' (decode32-length s t d) (decode32-length s' t' d')
              same) [
                | inl below ↦ inl below
                | inr clash ↦ inr (lift t t' d d' (Collide-Clash _ _ _ _ clash))
              ]
        | inr clash ↦ inr (lift t t' d d' (Clash-cons _ _ _ _ clash))
      ]
