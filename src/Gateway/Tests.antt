-- ===== src/Gateway/Tests.antt =====
-- The limiter's theorems at two tenants, with whole numbers for floats.
use ullm.Prelude.{arith, ◌≤◌, ℕ, ◌+◌, ◌-◌, ◌*◌, ◌/◌, ◌≡◌, Bool, ltb, leb, [], ◌∷◌}
use Prim.Native.Nat.{min}
use ullm.Core.{ok}
use ullm.Gateway.RateLimiter.{Float, Tenant, RateLimiterConfig, Inner, new_limiter, try_charge}
use ullm.Gateway.RateLimiter.Burst.{Ordered, AllCapped, Within, try_charge-AllCapped}
use ullm.Gateway.RateLimiter.Invariant.{IsValid, new_limiter-IsValid, try_charge-IsValid}

abbrev whole : Float ℕ
whole = record {
  of_u64 = λ n. n;
  seconds = λ n. n / 1_000_000_000;
  add = λ a b. a + b;
  sub = λ a b. a - b;
  mul = λ a b. a * b;
  min = min;
  lt = ltb;
  ge = λ a b. leb b a;
  sixty = 60;
  eighth = 0;
}

abbrev cfg : RateLimiterConfig
cfg = record { bytes_per_sec = 10; burst_bytes = 100; max_tenants = 2 }

abbrev acme : Tenant
acme = 97 ∷ []

abbrev bolt : Tenant
bolt = 98 ∷ []

abbrev one_tenant : Inner ℕ
one_tenant = (try_charge whole cfg new_limiter 5 acme 30).0

one_tenant-IsValid : IsValid cfg one_tenant
one_tenant-IsValid =
    (try_charge-IsValid whole cfg new_limiter 5 acme 30 (new_limiter-IsValid cfg)).0

try_charge-IsValid_example :
    IsValid cfg (try_charge whole cfg one_tenant 6 bolt 500).0
    × ((allowed : Bool) × ((try_charge whole cfg one_tenant 6 bolt 500).1 ≡ ok allowed))
try_charge-IsValid_example = try_charge-IsValid whole cfg one_tenant 6 bolt 500 one_tenant-IsValid

whole-Ordered : Ordered whole
whole-Ordered = record {
  le = ◌≤◌;
  of_u64-le = λ n. omega arith;
  min-le = λ x n. omega arith;
  sub-le = λ x n m h. omega (arith, h);
  eighth-le = λ n. omega arith;
  ge_trans = λ x n m h le. ground (arith, h, le);
}

-- A bucket is made for one tenant while the other's is capped at a burst of 100.
try_charge-AllCapped_example :
    AllCapped whole whole-Ordered cfg (try_charge whole cfg one_tenant 6 bolt 500).0
    × Within whole whole-Ordered cfg 500 (try_charge whole cfg one_tenant 6 bolt 500).1
try_charge-AllCapped_example =
    try_charge-AllCapped whole whole-Ordered cfg one_tenant 6 bolt 500 one_tenant-capped
  where
    one_tenant-capped : AllCapped whole whole-Ordered cfg one_tenant
    one_tenant-capped =
        (try_charge-AllCapped whole whole-Ordered cfg new_limiter 5 acme 30
          (unfold new_limiter in tt)).0
