-- ===== src/Gateway/RateLimiter/Answers.antt =====
-- Whose buckets the limiter of crates/ullm-gateway/src/rate_limit.rs leaves as they are.
use ullm.Prelude.{
  ℕ, ◌<◌, ◌≡◌, ◌≢◌, refl, ◌∙◌, false, ◌&&◌, ltb, leb, Option, none, some, arith, length,
}
use mathlib.Core.List.{lookup}
use ullm.Lru.Lookup.{lookup-insert_ne}
use ullm.Gateway.RateLimiter.{
  Float, Tenant, Tenant-discrete, RateLimiterConfig, Bucket, Inner, charge, ensure, try_charge,
}

module _ {F : Type 0} (float : Float F) (cfg : RateLimiterConfig) where
  charge-others :
      (s : Inner F) (now : ℕ) (tenant q : Tenant) (bytes : ℕ) (entry : Option (Bucket F))
      → q ≢ tenant
      → lookup Tenant-discrete q (charge float cfg s now tenant bytes entry).0.buckets
        ≡ lookup Tenant-discrete q s.buckets
  unfolding charge
  charge-others s now tenant q bytes none other = refl
  charge-others s now tenant q bytes (some b) other =
      lookup-insert_ne Tenant-discrete q tenant _ s.buckets other

  ensure-others :
      (s : Inner F) (now : ℕ) (tenant q : Tenant) (entry : Option (Bucket F))
      → q ≢ tenant
      → length s.buckets < cfg.max_tenants
      → lookup Tenant-discrete q (ensure float cfg s now tenant entry).buckets
        ≡ lookup Tenant-discrete q s.buckets
  unfolding ensure
  ensure-others s now tenant q none other room =
      let free : (ltb 0 cfg.max_tenants && leb cfg.max_tenants (length s.buckets)) ≡ false =
        ground (arith, room) in
      rw free (lookup-insert_ne Tenant-discrete q tenant _ s.buckets other)
  ensure-others s now tenant q (some b) other room = refl

  -- While the table is not full, a call for one tenant leaves every other tenant's bucket as it
  -- is.
  pub try_charge-others :
      (s : Inner F) (now : ℕ) (tenant q : Tenant) (bytes : ℕ)
      → q ≢ tenant
      → length s.buckets < cfg.max_tenants
      → lookup Tenant-discrete q (try_charge float cfg s now tenant bytes).0.buckets
        ≡ lookup Tenant-discrete q s.buckets
  unfolding try_charge
  try_charge-others s now tenant q bytes other room =
      let s' = ensure float cfg s now tenant (lookup Tenant-discrete tenant s.buckets) in
      charge-others s' now tenant q bytes (lookup Tenant-discrete tenant s'.buckets) other
      ∙ ensure-others s now tenant q (lookup Tenant-discrete tenant s.buckets) other room
