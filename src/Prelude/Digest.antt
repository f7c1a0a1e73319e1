-- ===== src/Prelude/Digest.antt =====
-- A hash function told apart by what it hashes: texts with one digest are equal or collide.
use ullm.Prelude.{
  ℕ, ◌≡◌, ◌≢◌, ◌⊎◌, inl, inr, refl, List, [], ◌∷◌, ◌++◌, false, length, arith, bytes_eq,
  bytes_eq_sound, bytes_eq_refl, Bool-cases,
}

-- These two texts differ and have one digest.
abbrev pub Collide : (List ℕ → List ℕ) → List ℕ → List ℕ → Type 0
Collide digest a b = (a ≢ b) × (digest a ≡ digest b)

-- A common prefix drops out, and two texts of one length split alike.
pub append-inverse : (a b c d : List ℕ) → length a ≡ length c → a ++ b ≡ c ++ d → (a ≡ c) × (b ≡ d)
append-inverse [] b [] d h e = (refl, e)
append-inverse [] b (z ∷ c) d h e = absurd (omega arith)
append-inverse (x ∷ a) b [] d h e = absurd (omega arith)
append-inverse (x ∷ a) b (z ∷ c) d h e =
    let rest : a ++ b ≡ c ++ d = cc in
    let first : x ≡ z = cc in
    let (front, back) = append-inverse a b c d (omega arith) rest in (cc, back)

pub prefix-inverse : (p a b : List ℕ) → p ++ a ≡ p ++ b → a ≡ b
prefix-inverse p a b e = (append-inverse p a p b refl e).1

-- Texts with one digest are equal or collide.
pub digest-inverse :
    (digest : List ℕ → List ℕ) (a b : List ℕ) → digest a ≡ digest b → (a ≡ b) ⊎ Collide digest a b
digest-inverse digest a b e = elim (Bool-cases (bytes_eq a b)) [
  | inl same ↦ inl (bytes_eq_sound a b same)
  | inr other ↦ inr ((λ q. differ q other), e)
]
  where
    differ : {x y : List ℕ} → x ≡ y → bytes_eq x y ≡ false → ⊥
    differ {x = x} q h = ground (arith, q, h, bytes_eq_refl x)
