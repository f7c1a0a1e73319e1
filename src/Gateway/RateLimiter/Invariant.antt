-- ===== src/Gateway/RateLimiter/Invariant.antt =====
-- The limiter of crates/ullm-gateway/src/rate_limit.rs stays paired, sorted and capped, and never
-- panics.
use ullm.Prelude.{
  ℕ, ◌+◌, ◌≤◌, ◌<◌, ◌≡◌, refl, Bool, ◌&&◌, ltb, leb, List, [], Option, none, some, arith, length,
  Bool-cases, inl, inr,
}
use mathlib.Core.List.{lookup, Nodup-nil}
use mathlib.Core.List.Perm
use ullm.Core.{ok}
use ullm.Lru.{bytes_lt, Row, remove, remove_row, insert_row, insert}
use ullm.Lru.Synced.{Synced, row, remove-Synced, remove_absent-Synced, insert-Synced}
use ullm.Lru.Order.{IsSorted, remove-IsSorted, insert-IsSorted}
use ullm.Lru.Lookup.{length-remove, length-remove-le, length-insert, lookup-insert_self}
use ullm.Lru.Evict.{IsReady, evict-IsReady, evict_room}
use ullm.Gateway.RateLimiter.{
  Float, Tenant, Tenant-discrete, RateLimiterConfig, Bucket, Inner, new_limiter, admit, charge,
  ensure, try_charge,
}

module _ {F : Type 0} where
  abbrev pub stamp : Bucket F → ℕ × ℕ
  stamp b = (b.last_refill, b.lru_seq)

  -- The index has exactly the rows of the buckets, oldest first, and there are at most as many
  -- buckets as the configuration allows, where it sets a limit.
  pub record IsValid (cfg : RateLimiterConfig) (s : Inner F) : Type 0 where
    pub paired : Synced Tenant-discrete stamp s.buckets s.lru_index
    pub sorted : IsSorted s.lru_index
    pub capped : 0 < cfg.max_tenants → length s.buckets ≤ cfg.max_tenants

  pub new_limiter-IsValid : (cfg : RateLimiterConfig) → IsValid cfg new_limiter
  unfolding new_limiter
  new_limiter-IsValid cfg = record {
    paired = record { same = Perm.refl []; distinct = Nodup-nil };
    sorted = tt;
    capped = λ h. omega arith;
  }

  -- A bucket written beside a table that is ready for it.
  written :
      (cfg : RateLimiterConfig) (tenant : Tenant) (b : Bucket F) (m : List (Tenant × Bucket F))
      (l : List (Row Tenant)) (next : ℕ) (last : Option ℕ)
      → IsReady Tenant-discrete stamp tenant m l
      → (0 < cfg.max_tenants → length (remove Tenant-discrete tenant m) + 1 ≤ cfg.max_tenants)
      → IsValid cfg (record {
        buckets = insert Tenant-discrete tenant b m;
        lru_index = insert_row Tenant-discrete bytes_lt (row Tenant-discrete stamp tenant b) l;
        next_lru_seq = next;
        last_eviction = last;
      })
  written cfg tenant b m l next last ready room = record {
    paired = insert-Synced Tenant-discrete stamp bytes_lt tenant b m l ready.distinct ready.rest;
    sorted = insert-IsSorted Tenant-discrete bytes_lt _ l ready.sorted;
    capped = λ h. omega (arith, length-insert Tenant-discrete tenant b m, room h);
  }

  module _ (float : Float F) (cfg : RateLimiterConfig) where
    admit-IsValid :
        (s : Inner F) (now : ℕ) (tenant : Tenant)
        → lookup Tenant-discrete tenant s.buckets ≡ none
        → IsValid cfg s
        → IsValid cfg (admit float cfg s now tenant)
    unfolding admit
    admit-IsValid s now tenant absent v =
        elim (Bool-cases (ltb 0 cfg.max_tenants && leb cfg.max_tenants (length s.buckets))) [
          | inl full ↦ rw full (
              written cfg tenant _ _ _ _ _
                (evict-IsReady Tenant-discrete stamp tenant s.buckets s.lru_index ready)
                (λ h.
                  evict_room Tenant-discrete stamp cfg.max_tenants tenant s.buckets s.lru_index h
                    (v.capped h) ready))
          | inr room ↦ rw room (
              written cfg tenant _ s.buckets s.lru_index _ _ ready
                (λ h. ground (arith, length-remove-le Tenant-discrete tenant s.buckets, room, h)))
        ]
      where
        ready : IsReady Tenant-discrete stamp tenant s.buckets s.lru_index
        ready = record {
          distinct = v.paired.distinct;
          rest =
              remove_absent-Synced Tenant-discrete stamp tenant s.buckets s.lru_index v.paired
                absent;
          sorted = v.sorted;
        }

    ensure-IsValid :
        (s : Inner F) (now : ℕ) (tenant : Tenant) (entry : Option (Bucket F))
        → lookup Tenant-discrete tenant s.buckets ≡ entry
        → IsValid cfg s
        → IsValid cfg (ensure float cfg s now tenant entry)
    unfolding ensure
    ensure-IsValid s now tenant none found v = admit-IsValid s now tenant found v
    ensure-IsValid s now tenant (some b) found v = v

    admit-present :
        (s : Inner F) (now : ℕ) (tenant : Tenant)
        → (b : Bucket F) × (lookup Tenant-discrete tenant (admit float cfg s now tenant).buckets
            ≡ some b)
    unfolding admit
    admit-present s now tenant = (_, lookup-insert_self Tenant-discrete tenant _ _)

    ensure-present :
        (s : Inner F) (now : ℕ) (tenant : Tenant) (entry : Option (Bucket F))
        → lookup Tenant-discrete tenant s.buckets ≡ entry
        → (b : Bucket F) × (lookup Tenant-discrete tenant
              (ensure float cfg s now tenant entry).buckets
            ≡ some b)
    unfolding ensure
    ensure-present s now tenant none found = admit-present s now tenant
    ensure-present s now tenant (some b) found = (b, found)

    charge-IsValid :
        (s : Inner F) (now : ℕ) (tenant : Tenant) (bytes : ℕ) (entry : Option (Bucket F))
        → lookup Tenant-discrete tenant s.buckets ≡ entry
        → IsValid cfg s
        → IsValid cfg (charge float cfg s now tenant bytes entry).0
    unfolding charge
    charge-IsValid s now tenant bytes none found v = v
    charge-IsValid s now tenant bytes (some b) found v =
        written cfg tenant _ s.buckets
          (remove_row Tenant-discrete (row Tenant-discrete stamp tenant b) s.lru_index) _ _
          (record {
            distinct = v.paired.distinct;
            rest =
                remove-Synced Tenant-discrete stamp tenant b s.buckets s.lru_index v.paired found;
            sorted = remove-IsSorted Tenant-discrete _ s.lru_index v.sorted;
          })
          (λ h. omega (arith, length-remove Tenant-discrete tenant b s.buckets found, v.capped h))

    -- Every call of try_charge on a valid limiter keeps the buckets and the index paired row by
    -- row, the index sorted by age and the buckets within the configured number, and it answers,
    -- since the bucket that it charges is there.
    pub try_charge-IsValid :
        (s : Inner F) (now : ℕ) (tenant : Tenant) (bytes : ℕ)
        → IsValid cfg s
        → IsValid cfg (try_charge float cfg s now tenant bytes).0
          × ((allowed : Bool) × ((try_charge float cfg s now tenant bytes).1 ≡ ok allowed))
    unfolding try_charge
    try_charge-IsValid s now tenant bytes v =
        let entry = lookup Tenant-discrete tenant s.buckets in
        let s' = ensure float cfg s now tenant entry in
        (
          charge-IsValid s' now tenant bytes (lookup Tenant-discrete tenant s'.buckets) refl
              (ensure-IsValid s now tenant entry refl v),
          answers s' now tenant bytes (lookup Tenant-discrete tenant s'.buckets) refl
              (ensure-present s now tenant entry refl),
        )
      where
        answers :
            (t : Inner F) (now : ℕ) (tenant : Tenant) (bytes : ℕ) (o : Option (Bucket F))
            → lookup Tenant-discrete tenant t.buckets ≡ o
            → ((b : Bucket F) × (lookup Tenant-discrete tenant t.buckets ≡ some b))
            → (allowed : Bool) × ((charge float cfg t now tenant bytes o).1 ≡ ok allowed)
        answers t now tenant bytes none found (b, there) = cc
        answers t now tenant bytes (some b) found there = (_, unfold charge in refl)
