-- ===== src/Prelude/Fields.antt =====
-- Texts written one after the other, each behind its length, and read back: a small printer and
-- parser that the tests put in place of a serialisation crate.
use ullm.Prelude.{
  ℕ, zero, suc, ◌≡◌, refl, List, [], ◌∷◌, ◌++◌, length, take, drop, take-length-append,
  drop-length-append,
}

abbrev pub join : List (List ℕ) → List ℕ
join [] = []
join (x ∷ xs) = length x ∷ x ++ join xs

abbrev pub split : ℕ → List ℕ → List (List ℕ)
split zero b = []
split (suc n) [] = []
split (suc n) (l ∷ b) = take l b ∷ split n (drop l b)

pub split-join : (xs : List (List ℕ)) → split (length xs) (join xs) ≡ xs
split-join [] = refl
split-join (x ∷ xs) =
    rw (take-length-append x (join xs), drop-length-append x (join xs), split-join xs) refl
