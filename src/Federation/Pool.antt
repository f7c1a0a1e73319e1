-- ===== src/Federation/Pool.antt =====
-- crates/ullm-federation/src/pool.rs: a plan of k healthy providers of different vendors.
pub mod Disjoint
use ullm.Prelude.{ℕ, Bool, true, false, not, ◌==◌, List, [], ◌∷◌, ◌++◌, length, if◌then◌else◌}
use ullm.Core.{Error, Result, ok, err}
use ullm.Federation.MultiVendor.{VendorKind, has_kind}

-- `ProviderManifest` of build.rs
pub record ProviderManifest : Type 0 where
  pub provider_id : List ℕ
  pub build_hash : List ℕ
  pub region : List ℕ

pub record Provider : Type 0 where
  pub manifest : ProviderManifest
  pub vendor : VendorKind
  pub url : List ℕ
  pub healthy : Bool

-- Whether the loop takes a provider, and whether the plan is then complete.
unfoldable pub takes : Provider → List VendorKind → Bool
takes p seen = if not p.healthy then false else not (has_kind p.vendor seen)

unfoldable pub plan_loop :
    ℕ → List Provider → List Provider → List VendorKind → Result (List Provider)
plan_loop k [] chosen seen = err Error.other
plan_loop k (p ∷ providers) chosen seen = elim (takes p seen) [
  | false ↦ plan_loop k providers chosen seen
  | true ↦ elim (length (chosen ++ (p ∷ [])) == k) [
    | true ↦ ok (chosen ++ (p ∷ []))
    | false ↦ plan_loop k providers (chosen ++ (p ∷ [])) (p.vendor ∷ seen)
  ]
]

unfoldable pub plan_disjoint : List Provider → ℕ → Result (List Provider)
unfolding plan_loop
plan_disjoint providers k = if k == 0 then err Error.other else plan_loop k providers [] []
