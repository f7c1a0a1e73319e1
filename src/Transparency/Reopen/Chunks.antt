-- ===== src/Transparency/Reopen/Chunks.antt =====
-- How the reader cuts a file of lines.
use ullm.Prelude.{
  ℕ, zero, suc, ◌-◌, ◌<◌, ◌≤◌, ◌≡◌, refl, true, false, ◌==◌, List, [], ◌∷◌, ◌++◌, length,
  length-append, take, arith, All, take_exact,
}
use ullm.Transparency.Reopen.{read_until, terminated}

-- No newline.
abbrev pub OneLine : List ℕ → Type 0
OneLine = All (λ b. (b == 10) ≡ false)

pub read_until-line :
    (limit : ℕ) (l rest : List ℕ)
    → OneLine l
    → length l < limit
    → read_until limit (l ++ (10 ∷ rest)) ≡ (l ++ (10 ∷ []), rest)
unfolding read_until
read_until-line zero l rest one lt = absurd (omega (arith, lt))
read_until-line (suc limit) [] rest one lt = refl
read_until-line (suc limit) (b ∷ l) rest one lt =
    rw (read_until-line limit l rest one.1 (omega (arith, lt)), one.0) refl

pub read_until-tail :
    (limit : ℕ) (t : List ℕ) → OneLine t → length t ≤ limit → read_until limit t ≡ (t, [])
unfolding read_until
read_until-tail zero [] one le = refl
read_until-tail zero (b ∷ t) one le = absurd (omega (arith, le))
read_until-tail (suc limit) [] one le = refl
read_until-tail (suc limit) (b ∷ t) one le =
    rw (read_until-tail limit t one.1 (omega (arith, le)), one.0) refl

pub terminated-line : (l : List ℕ) → terminated (l ++ (10 ∷ [])) ≡ true
unfolding terminated
terminated-line [] = refl
terminated-line (b ∷ []) = refl
terminated-line (b ∷ c ∷ l) = terminated-line (c ∷ l)

pub terminated-tail : (t : List ℕ) → OneLine t → terminated t ≡ false
unfolding terminated
terminated-tail [] one = refl
terminated-tail (b ∷ []) one = one.0
terminated-tail (b ∷ c ∷ t) one = terminated-tail (c ∷ t) one.1

-- The line without its newline.
pub trim-line : (l : List ℕ) → take (length (l ++ (10 ∷ [])) - 1) (l ++ (10 ∷ [])) ≡ l
trim-line l =
    let size : length l ≡ length (l ++ (10 ∷ [])) - 1 = omega (arith, length-append l (10 ∷ [])) in
    take_exact (length (l ++ (10 ∷ [])) - 1) l (10 ∷ []) size
