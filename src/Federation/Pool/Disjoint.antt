-- ===== src/Federation/Pool/Disjoint.antt =====
-- A plan has the number of providers asked for, all healthy, no two of one vendor.
use ullm.Prelude.{
  ℕ, ◌≡◌, ◌<◌, refl, sym, ◌∙◌, ap, true, false, ◌==◌, List, [], ◌∷◌, ◌++◌, length, arith, All,
  Bool-cases, inl, inr,
}
use mathlib.Core.Path.{subst}
use ullm.Core.{ok}
use ullm.Federation.MultiVendor.{VendorKind, has_kind}
use ullm.Federation.Pool.{Provider, takes, plan_loop, plan_disjoint}

abbrev pub IsHealthy : Provider → Type 0
IsHealthy p = p.healthy ≡ true

-- No vendor of the list stands among those given before or twice in it.
abbrev pub VendorsDiffer : List VendorKind → List Provider → Type 0
VendorsDiffer seen [] = Unit
VendorsDiffer seen (p ∷ ps) = (has_kind p.vendor seen ≡ false) × VendorsDiffer (p.vendor ∷ seen) ps

abbrev vendors_after : List VendorKind → List Provider → List VendorKind
vendors_after seen [] = seen
vendors_after seen (p ∷ ps) = vendors_after (p.vendor ∷ seen) ps

VendorsDiffer-snoc :
    (chosen : List Provider) (p : Provider) (seen : List VendorKind)
    → VendorsDiffer seen chosen
    → has_kind p.vendor (vendors_after seen chosen) ≡ false
    → VendorsDiffer seen (chosen ++ (p ∷ []))
VendorsDiffer-snoc [] p seen d new = (new, tt)
VendorsDiffer-snoc (c ∷ chosen) p seen d new =
    (d.0, VendorsDiffer-snoc chosen p (c.vendor ∷ seen) d.1 new)

vendors_after-snoc :
    (chosen : List Provider) (p : Provider) (seen : List VendorKind)
    → vendors_after seen (chosen ++ (p ∷ [])) ≡ p.vendor ∷ vendors_after seen chosen
vendors_after-snoc [] p seen = refl
vendors_after-snoc (c ∷ chosen) p seen = vendors_after-snoc chosen p (c.vendor ∷ seen)

takes_both :
    (p : Provider) (seen : List VendorKind)
    → takes p seen ≡ true
    → IsHealthy p × (has_kind p.vendor seen ≡ false)
unfolding takes
takes_both p seen h = ground (arith, h)

IsHealthy-snoc :
    (chosen : List Provider) (p : Provider)
    → All IsHealthy chosen
    → IsHealthy p
    → All IsHealthy (chosen ++ (p ∷ []))
IsHealthy-snoc [] p a h = (h, tt)
IsHealthy-snoc (c ∷ chosen) p a h = (a.0, IsHealthy-snoc chosen p a.1 h)

-- What a plan is asked to be.
pub record IsPlan (k : ℕ) (plan : List Provider) : Type 0 where
  pub size : length plan ≡ k
  pub healthy : All IsHealthy plan
  pub different : VendorsDiffer [] plan

module _ (k : ℕ) (p : Provider) (providers chosen : List Provider) (seen : List VendorKind) where
  plan_skip :
      takes p seen ≡ false
      → plan_loop k (p ∷ providers) chosen seen ≡ plan_loop k providers chosen seen
  unfolding plan_loop
  plan_skip e = ground (arith, e)

  plan_stop :
      takes p seen ≡ true
      → (length (chosen ++ (p ∷ [])) == k) ≡ true
      → plan_loop k (p ∷ providers) chosen seen ≡ ok (chosen ++ (p ∷ []))
  unfolding plan_loop
  plan_stop e full = ground (arith, e, full)

  plan_go :
      takes p seen ≡ true
      → (length (chosen ++ (p ∷ [])) == k) ≡ false
      → plan_loop k (p ∷ providers) chosen seen
        ≡ plan_loop k providers (chosen ++ (p ∷ [])) (p.vendor ∷ seen)
  unfolding plan_loop
  plan_go e more = ground (arith, e, more)

plan_loop-IsPlan :
    (k : ℕ) (providers chosen : List Provider) (seen : List VendorKind) (plan : List Provider)
    → seen ≡ vendors_after [] chosen
    → All IsHealthy chosen
    → VendorsDiffer [] chosen
    → plan_loop k providers chosen seen ≡ ok plan
    → IsPlan k plan
plan_loop-IsPlan k [] chosen seen plan s a d h = unfold plan_loop in cc
plan_loop-IsPlan k (p ∷ providers) chosen seen plan s a d h = elim (Bool-cases (takes p seen)) [
  | inr skipped ↦
      plan_loop-IsPlan k providers chosen seen plan s a d
        (sym (plan_skip k p providers chosen seen skipped) ∙ h)
  | inl taken ↦
      let (healthy, new) = takes_both p seen taken in
      let healthy' = IsHealthy-snoc chosen p a healthy in
      let different = VendorsDiffer-snoc chosen p [] d (ap (has_kind p.vendor) (sym s) ∙ new) in
      elim (Bool-cases (length (chosen ++ (p ∷ [])) == k)) [
        | inl full ↦
            subst (IsPlan k) (inverse (sym (plan_stop k p providers chosen seen taken full) ∙ h))
              (record { size = ground (arith, full); healthy = healthy'; different = different })
        | inr more ↦
            plan_loop-IsPlan k providers (chosen ++ (p ∷ [])) (p.vendor ∷ seen) plan
              (ap (◌∷◌ p.vendor) s ∙ sym (vendors_after-snoc chosen p [])) healthy' different
              (sym (plan_go k p providers chosen seen taken more) ∙ h)
      ]
]
  where
    inverse : {u v : List Provider} → ok u ≡ ok v → u ≡ v
    inverse q = cc

-- A plan that the pool returns has exactly as many providers as asked for, at least one, all
-- healthy and no two of one vendor.
pub plan_disjoint-IsPlan :
    (providers : List Provider) (k : ℕ) (plan : List Provider)
    → plan_disjoint providers k ≡ ok plan
    → IsPlan k plan × (0 < k)
unfolding plan_disjoint
plan_disjoint-IsPlan providers k plan h = elim (Bool-cases (k == 0)) [
  | inl none_asked ↦ absurd (ground (arith, h, none_asked))
  | inr some_asked ↦ (
    plan_loop-IsPlan k providers [] [] plan refl tt tt (ground (arith, h, some_asked)),
    ground (arith, some_asked),
  )
]
