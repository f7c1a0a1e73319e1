-- ===== src/Gateway/RateLimiter/Burst.antt =====
-- No bucket of crates/ullm-gateway/src/rate_limit.rs holds more than the burst.
use ullm.Prelude.{
  ℕ, ◌≡◌, ◌⊎◌, inl, inr, refl, Bool, true, false, ◌&&◌, ltb, leb, if◌then◌else◌, List, [], ◌∷◌,
  some, length, All, Bool-cases, Option-cases,
}
use mathlib.Core.List.{lookup}
use mathlib.Core.Logic.{if_pos, if_neg}
use ullm.Core.{Result, ok}
use ullm.Lru.{Row, remove, insert, evict_oldest}
use ullm.Lru.Lookup.{lookup-insert_self}
use ullm.Gateway.RateLimiter.{
  Float, Tenant, Tenant-discrete, RateLimiterConfig, Bucket, Inner, refill, admit, charge, ensure,
  try_charge,
}

-- What holds of `f64` beside a number that comes from an integer: an order, in which the smaller of
-- two numbers, a difference and an eighth are not above it.
pub record Ordered {F : Type 0} (float : Float F) : Type 1 where
  pub le : F → F → Type 0
  pub of_u64-le : (n : ℕ) → le (float.of_u64 n) (float.of_u64 n)
  pub min-le : (x : F) (n : ℕ) → le (float.min x (float.of_u64 n)) (float.of_u64 n)
  pub sub-le :
      (x : F) (n m : ℕ) → le x (float.of_u64 m) → le (float.sub x (float.of_u64 n)) (float.of_u64 m)
  pub eighth-le : (n : ℕ) → le (float.mul (float.of_u64 n) float.eighth) (float.of_u64 n)
  pub ge_trans :
      (x : F) (n m : ℕ)
      → float.ge x (float.of_u64 n) ≡ true
      → le x (float.of_u64 m)
      → float.ge (float.of_u64 m) (float.of_u64 n) ≡ true

module _ {F : Type 0} (float : Float F) (ordered : Ordered float) (cfg : RateLimiterConfig) where
  -- The tokens of a bucket are at most the burst.
  abbrev pub IsCapped : Tenant × Bucket F → Type 0
  IsCapped entry = ordered.le entry.1.tokens (float.of_u64 cfg.burst_bytes)

  -- The tokens of every bucket are.
  abbrev pub AllCapped : Inner F → Type 0
  AllCapped s = All IsCapped s.buckets

  remove-AllCapped :
      (k : Tenant) (m : List (Tenant × Bucket F))
      → All IsCapped m
      → All IsCapped (remove Tenant-discrete k m)
  unfolding remove
  remove-AllCapped k [] h = tt
  remove-AllCapped k (e ∷ m) h = elim (Tenant-discrete e.0 k) [
    | yes p ↦ rw (if_pos _ p) h.1
    | no p ↦ rw (if_neg _ p) (h.0, remove-AllCapped k m h.1)
  ]

  insert-AllCapped :
      (k : Tenant) (b : Bucket F) (m : List (Tenant × Bucket F))
      → ordered.le b.tokens (float.of_u64 cfg.burst_bytes)
      → All IsCapped m
      → All IsCapped (insert Tenant-discrete k b m)
  unfolding insert
  insert-AllCapped k b m h t = (h, remove-AllCapped k m t)

  evict_oldest-AllCapped :
      (m : List (Tenant × Bucket F)) (l : List (Row Tenant))
      → All IsCapped m
      → All IsCapped (evict_oldest Tenant-discrete m l).0
  unfolding evict_oldest
  evict_oldest-AllCapped m [] h = h
  evict_oldest-AllCapped m (oldest ∷ l) h = remove-AllCapped oldest.key m h

  starting :
      (cold : Bool)
      → ordered.le
          (if cold
            then float.mul (float.of_u64 cfg.burst_bytes) float.eighth
            else float.of_u64 cfg.burst_bytes)
          (float.of_u64 cfg.burst_bytes)
  starting true = ordered.eighth-le cfg.burst_bytes
  starting false = ordered.of_u64-le cfg.burst_bytes

  make_room :
      (full : Bool) (s : Inner F)
      → AllCapped s
      → All IsCapped
          (if full
            then evict_oldest Tenant-discrete s.buckets s.lru_index
            else (s.buckets, s.lru_index, false)).0
  make_room true s h = evict_oldest-AllCapped s.buckets s.lru_index h
  make_room false s h = h

  admit-AllCapped :
      (s : Inner F) (now : ℕ) (tenant : Tenant)
      → AllCapped s
      → AllCapped (admit float cfg s now tenant)
        × ((b : Bucket F) × (lookup Tenant-discrete tenant (admit float cfg s now tenant).buckets
              ≡ some b))
  unfolding admit
  admit-AllCapped s now tenant h = (
    insert-AllCapped tenant _ _ (starting _)
        (make_room (ltb 0 cfg.max_tenants && leb cfg.max_tenants (length s.buckets)) s h),
    (_, lookup-insert_self Tenant-discrete tenant _ _),
  )

  -- The answer to a call: bytes beyond the burst are refused.
  abbrev pub Within : ℕ → Result Bool → Type 0
  Within bytes answer =
      (answer ≡ ok false)
      ⊎ ((answer ≡ ok true) × (float.ge (float.of_u64 cfg.burst_bytes) (float.of_u64 bytes) ≡ true))

  charge-AllCapped :
      (s : Inner F) (now : ℕ) (tenant : Tenant) (bytes : ℕ) (b : Bucket F)
      → AllCapped s
      → AllCapped (charge float cfg s now tenant bytes (some b)).0
        × Within bytes (charge float cfg s now tenant bytes (some b)).1
  unfolding charge refill
  charge-AllCapped s now tenant bytes b h =
      let tokens = refill float cfg b now in
      let full : ordered.le tokens (float.of_u64 cfg.burst_bytes) =
        ordered.min-le _ cfg.burst_bytes in
      elim (Bool-cases (float.ge tokens (float.of_u64 bytes))) [
        | inl enough ↦ rw enough (
          insert-AllCapped tenant _ s.buckets (ordered.sub-le tokens bytes cfg.burst_bytes full) h,
          inr (refl, ordered.ge_trans tokens bytes cfg.burst_bytes enough full),
        )
        | inr short ↦ rw short (insert-AllCapped tenant _ s.buckets full h, inl refl)
      ]

  -- In a limiter in which no bucket holds more than the burst, no bucket does after a call, whether
  -- it refills a bucket, makes one or evicts one; and the call answers, with a refusal or, only if
  -- the burst is not below the bytes asked for, with a permission.
  pub try_charge-AllCapped :
      (s : Inner F) (now : ℕ) (tenant : Tenant) (bytes : ℕ)
      → AllCapped s
      → AllCapped (try_charge float cfg s now tenant bytes).0
        × Within bytes (try_charge float cfg s now tenant bytes).1
  unfolding try_charge ensure
  try_charge-AllCapped s now tenant bytes h =
      elim (Option-cases (lookup Tenant-discrete tenant s.buckets)) [
        | inr (b, found) ↦ rw (found, found) (charge-AllCapped s now tenant bytes b h)
        | inl absent ↦
            let (capped, (b, found)) = admit-AllCapped s now tenant h in
            rw (absent, found)
              (charge-AllCapped (admit float cfg s now tenant) now tenant bytes b capped)
      ]
