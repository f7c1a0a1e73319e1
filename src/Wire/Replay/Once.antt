-- ===== src/Wire/Replay/Once.antt =====
-- The window of crates/ullm-wire/src/replay.rs accepts no number twice.
use ullm.Prelude.{
  ℕ, ◌≡◌, refl, true, false, if◌then◌else◌, List, [], ◌∷◌, arith, All, Bool-cases, inl, inr,
}
use ullm.Core.{Result, is_ok}
use ullm.Wire.Replay.{new, run}
use ullm.Wire.Replay.Spec.{contains, judge, judge_all, not_contains_above}
use ullm.Wire.Replay.Refine.{new-Tracks, run-judge_all}

-- The numbers whose call answered `Ok`, in order.
unfoldable pub accepted : List ℕ → List (Result (Unit {0})) → List ℕ
accepted (s ∷ seqs) (r ∷ rs) = if is_ok r then s ∷ accepted seqs rs else accepted seqs rs
accepted _ _ = []

abbrev pub Distinct : List ℕ → Type 0
Distinct [] = Unit
Distinct (x ∷ xs) = (contains x xs ≡ false) × Distinct xs

abbrev Fresh : List ℕ → List ℕ → Type 0
Fresh h = All (λ x. contains x h ≡ false)

judge_fresh : (h : List ℕ) (s : ℕ) → is_ok (judge h s) ≡ true → contains s h ≡ false
unfolding judge
judge_fresh h s e = ground (arith, not_contains_above s h)

Fresh-weaken : (s : ℕ) (h xs : List ℕ) → Fresh (s ∷ h) xs → Fresh h xs
Fresh-weaken s h [] f = tt
Fresh-weaken s h (x ∷ xs) f = (ground arith, Fresh-weaken s h xs f.1)

Fresh-absent : (s : ℕ) (h xs : List ℕ) → Fresh (s ∷ h) xs → contains s xs ≡ false
Fresh-absent s h [] f = refl
Fresh-absent s h (x ∷ xs) f = ground (arith, Fresh-absent s h xs f.1)

abbrev answers : List ℕ → List ℕ → List ℕ
answers h seqs = accepted seqs (judge_all h seqs).1

answers-Fresh : (seqs h : List ℕ) → Fresh h (answers h seqs) × Distinct (answers h seqs)
unfolding accepted judge_all
answers-Fresh [] h = (tt, tt)
answers-Fresh (s ∷ rest) h = elim (Bool-cases (is_ok (judge h s))) [
  | inl yes_ok ↦
      let (fresh, distinct) = answers-Fresh rest (s ∷ h) in
      rw yes_ok
        ((judge_fresh h s yes_ok, Fresh-weaken s h _ fresh), (Fresh-absent s h _ fresh, distinct))
  | inr refused ↦ rw refused (answers-Fresh rest h)
]

-- Whatever sequence of numbers a new window is given, the numbers that it accepts are all
-- different.
pub accepted-Distinct : (seqs : List ℕ) → Distinct (accepted seqs (run new seqs).1)
accepted-Distinct seqs =
    let (same, _) = run-judge_all seqs new [] new-Tracks in rw same ((answers-Fresh seqs []).1)
