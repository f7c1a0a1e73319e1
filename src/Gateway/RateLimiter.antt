-- ===== src/Gateway/RateLimiter.antt =====
-- crates/ullm-gateway/src/rate_limit.rs: token buckets keyed on the tenant, at most a configured
-- number of them, the one refilled longest ago evicted. An instant is a count of nanoseconds.
pub mod Invariant
pub mod Answers
pub mod Burst
use ullm.Prelude.{
  ℕ, ◌+◌, ◌*◌, ◌-◌, ◌%◌, ◌^◌, Bool, true, false, ◌||◌, ◌&&◌, ltb, leb, if◌then◌else◌, List, [], ◌∷◌,
  Option, none, some, length, ℕ_discrete,
}
use mathlib.Core.List.{lookup}
use ullm.Core.{Result, ok, panic}
use ullm.Lru.{bytes_lt, Row, remove_row, insert_row, insert, evict_oldest}

-- The operations of `f64` that the code uses; `seconds` is `Duration::as_secs_f64`.
pub record Float (F : Type 0) : Type 0 where
  pub of_u64 : ℕ → F
  pub seconds : ℕ → F
  pub add : F → F → F
  pub sub : F → F → F
  pub mul : F → F → F
  pub min : F → F → F
  pub lt : F → F → Bool
  pub ge : F → F → Bool
  pub sixty : F
  pub eighth : F

-- The bytes of a text.
abbrev pub Tenant : Type 0
Tenant = List ℕ

unfoldable pub Tenant-discrete : Discrete Tenant
Tenant-discrete = hlevel ℕ_discrete

pub record RateLimiterConfig : Type 0 where
  pub bytes_per_sec : ℕ
  pub burst_bytes : ℕ
  pub max_tenants : ℕ

-- `RateLimiterConfig::default`
unfoldable pub default : RateLimiterConfig
default = record { bytes_per_sec = 1_000_000; burst_bytes = 4_000_000; max_tenants = 16 * 1024 }

pub record Bucket (F : Type 0) : Type 0 where
  pub tokens : F
  pub last_refill : ℕ
  pub lru_seq : ℕ

pub record Inner (F : Type 0) : Type 0 where
  pub buckets : List (Tenant × Bucket F)
  pub lru_index : List (Row Tenant)
  pub next_lru_seq : ℕ
  pub last_eviction : Option ℕ

module _ {F : Type 0} where
  unfoldable pub new_limiter : Inner F
  new_limiter = record { buckets = []; lru_index = []; next_lru_seq = 0; last_eviction = none }

  unfoldable pub tenant_count : Inner F → ℕ
  tenant_count s = length s.buckets

  module _ (float : Float F) (cfg : RateLimiterConfig) where
    abbrev pub eviction_cooldown_secs : F
    eviction_cooldown_secs = float.sixty

    abbrev pub cold_burst_fraction : F
    cold_burst_fraction = float.eighth

    -- Whether the last eviction is within the cooldown.
    unfoldable pub cooling : Option ℕ → ℕ → Bool
    cooling none now = false
    cooling (some t) now = float.lt (float.seconds (now - t)) eviction_cooldown_secs

    -- The bucket of a tenant that has none: make room, then insert it.
    unfoldable pub admit : Inner F → ℕ → Tenant → Inner F
    unfolding cooling
    admit s now tenant =
        let (buckets', lru', evicted_now) =
          if ltb 0 cfg.max_tenants && leb cfg.max_tenants (length s.buckets)
          then evict_oldest Tenant-discrete s.buckets s.lru_index
          else (s.buckets, s.lru_index, false) in
        let under_pressure = evicted_now || cooling s.last_eviction now in
        let starting_tokens =
          if under_pressure
          then float.mul (float.of_u64 cfg.burst_bytes) cold_burst_fraction
          else float.of_u64 cfg.burst_bytes in
        let new_seq = s.next_lru_seq in
        record {
          buckets =
              insert Tenant-discrete tenant
                (record { tokens = starting_tokens; last_refill = now; lru_seq = new_seq })
                buckets';
          lru_index =
              insert_row Tenant-discrete bytes_lt
                (record { instant = now; seq = new_seq; key = tenant }) lru';
          next_lru_seq = (s.next_lru_seq + 1) % 2 ^ 64;
          last_eviction = if evicted_now then some now else s.last_eviction;
        }

    -- The tokens of a bucket after the refill.
    unfoldable pub refill : Bucket F → ℕ → F
    refill b now =
        let elapsed = float.seconds (now - b.last_refill) in
        float.min (float.add b.tokens (float.mul elapsed (float.of_u64 cfg.bytes_per_sec)))
          (float.of_u64 cfg.burst_bytes)

    -- From the lookup of the bucket on: move its row, refill it and take the bytes.
    unfoldable pub charge : Inner F → ℕ → Tenant → ℕ → Option (Bucket F) → Inner F × Result Bool
    unfolding refill
    charge s now tenant bytes none = (s, panic)
    charge s now tenant bytes (some b) =
        let old : Row Tenant = record { instant = b.last_refill; seq = b.lru_seq; key = tenant } in
        let new_seq = s.next_lru_seq in
        let tokens = refill b now in
        let enough = float.ge tokens (float.of_u64 bytes) in
        let tokens' = if enough then float.sub tokens (float.of_u64 bytes) else tokens in
        (
          record {
            buckets =
                insert Tenant-discrete tenant
                  (record { tokens = tokens'; last_refill = now; lru_seq = new_seq }) s.buckets;
            lru_index =
                insert_row Tenant-discrete bytes_lt
                  (record { instant = now; seq = new_seq; key = tenant })
                  (remove_row Tenant-discrete old s.lru_index);
            next_lru_seq = (s.next_lru_seq + 1) % 2 ^ 64;
            last_eviction = s.last_eviction;
          },
          ok enough,
        )

    -- `if !buckets.contains_key(tenant) { .. }`
    unfoldable pub ensure : Inner F → ℕ → Tenant → Option (Bucket F) → Inner F
    unfolding admit
    ensure s now tenant none = admit s now tenant
    ensure s now tenant (some b) = s

    unfoldable pub try_charge : Inner F → ℕ → Tenant → ℕ → Inner F × Result Bool
    unfolding ensure charge
    try_charge s now tenant bytes =
        let s' = ensure s now tenant (lookup Tenant-discrete tenant s.buckets) in
        charge s' now tenant bytes (lookup Tenant-discrete tenant s'.buckets)
