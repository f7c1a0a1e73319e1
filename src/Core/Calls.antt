-- ===== src/Core/Calls.antt =====
-- The three outcomes of a call.
use ullm.Prelude.{◌≡◌, refl, ◌⊎◌, inl, inr}
use ullm.Core.{Error, Result, ok, err, panic}

-- To split on what a call came to, and keep the equation.
pub Result-cases {ℓ} :
    {V : Type ℓ} (r : Result V) → ((v : V) × (r ≡ ok v)) ⊎ ((e : Error) × (r ≡ err e)) ⊎ (r ≡ panic)
Result-cases (ok v) = inl (v, refl)
Result-cases (err e) = inr (inl (e, refl))
Result-cases panic = inr (inr refl)
