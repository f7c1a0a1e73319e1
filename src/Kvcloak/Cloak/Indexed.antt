-- ===== src/Kvcloak/Cloak/Indexed.antt =====
-- Lists by their indices: reading after a write, and lists that agree at every index.
use ullm.Prelude.{
  ℕ, zero, suc, ◌<◌, ◌≡◌, ◌≢◌, refl, ap, List, [], ◌∷◌, some, length, get_elem?, arith,
}
use ullm.Kvcloak.Cloak.{set}

pub length-set : (xs : List ℕ) (i v : ℕ) → length (set xs i v) ≡ length xs
unfolding set
length-set [] i v = refl
length-set (x ∷ xs) zero v = refl
length-set (x ∷ xs) (suc i) v = ap suc (length-set xs i v)

pub get_elem?-set : (xs : List ℕ) (i v : ℕ) → i < length xs → get_elem? (set xs i v) i ≡ some v
unfolding set
get_elem?-set [] i v h = absurd (omega (arith, h))
get_elem?-set (x ∷ xs) zero v h = refl
get_elem?-set (x ∷ xs) (suc i) v h = get_elem?-set xs i v (omega (arith, h))

pub get_elem?-set_ne : (xs : List ℕ) (i j v : ℕ) → i ≢ j → get_elem? (set xs i v) j ≡ get_elem? xs j
unfolding set
get_elem?-set_ne [] i j v h = refl
get_elem?-set_ne (x ∷ xs) zero zero v h = absurd (h refl)
get_elem?-set_ne (x ∷ xs) zero (suc j) v h = refl
get_elem?-set_ne (x ∷ xs) (suc i) zero v h = refl
get_elem?-set_ne (x ∷ xs) (suc i) (suc j) v h = get_elem?-set_ne xs i j v (λ e. h (ap suc e))

pub get_elem?-some : (xs : List ℕ) (i : ℕ) → i < length xs → (v : ℕ) × (get_elem? xs i ≡ some v)
get_elem?-some [] i h = absurd (omega (arith, h))
get_elem?-some (x ∷ xs) zero h = (x, refl)
get_elem?-some (x ∷ xs) (suc i) h = get_elem?-some xs i (omega (arith, h))

pub get_elem?-lt : (xs : List ℕ) (i v : ℕ) → get_elem? xs i ≡ some v → i < length xs
get_elem?-lt [] i v h = absurd cc
get_elem?-lt (x ∷ xs) zero v h = omega arith
get_elem?-lt (x ∷ xs) (suc i) v h = omega (arith, get_elem?-lt xs i v h)

-- Lists of one length that agree at every index are equal.
pub get_elem?-ext :
    (xs ys : List ℕ)
    → length xs ≡ length ys
    → ((i : ℕ) → i < length ys → get_elem? xs i ≡ get_elem? ys i)
    → xs ≡ ys
get_elem?-ext [] [] e h = refl
get_elem?-ext [] (y ∷ ys) e h = absurd (omega (arith, e))
get_elem?-ext (x ∷ xs) [] e h = absurd (omega (arith, e))
get_elem?-ext (x ∷ xs) (y ∷ ys) e h =
    let first : some x ≡ some y = h 0 (omega arith) in
    let rest = get_elem?-ext xs ys (omega (arith, e)) (λ i lt. h (suc i) (omega (arith, lt))) in
    cc (first, rest)
