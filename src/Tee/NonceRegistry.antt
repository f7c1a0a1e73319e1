-- ===== src/Tee/NonceRegistry.antt =====
-- crates/ullm-tee/src/nonce_registry.rs: the attestation nonces seen within their lifetime.
-- An instant is a count of nanoseconds from the earliest one that the platform's clock represents,
-- so `checked_sub` fails below it and `duration_since` stops at 0.
pub mod Invariant
pub mod Answers
use ullm.Prelude.{
  ℕ, ◌+◌, ◌-◌, ◌*◌, ◌%◌, ◌^◌, Bool, true, false, ◌||◌, ◌&&◌, ◌==◌, ltb, leb, if◌then◌else◌, List,
  [], ◌∷◌, Option, none, some, length, replicate, ℕ_discrete,
}
use mathlib.Core.List.{lookup}
use ullm.Core.{nonce_ttl_default_sec}
use ullm.Lru.{bytes_lt, Row, remove_row, insert_row, rows_below, insert, evict_oldest, remove_all}

-- 32 bytes, ordered as arrays are.
abbrev pub Nonce : Type 0
Nonce = List ℕ

unfoldable pub Nonce-discrete : Discrete Nonce
Nonce-discrete = hlevel ℕ_discrete

abbrev pub max_tracked_nonces : ℕ
max_tracked_nonces = 128 * 1024

abbrev pub nonce_ttl : ℕ
nonce_ttl = nonce_ttl_default_sec * 1_000_000_000

pub record State : Type 0 where
  pub seen : List (Nonce × (ℕ × ℕ))
  pub lru : List (Row Nonce)
  pub next_lru_seq : ℕ

unfoldable pub new : State
new = record { seen = []; lru = []; next_lru_seq = 0 }

pub data Observation : Type 0 where
  accepted replayed : Observation

-- `now.checked_sub(NONCE_TTL).unwrap_or(now)`
unfoldable pub cutoff : ℕ → ℕ
cutoff now = if ltb now nonce_ttl then now else now - nonce_ttl

-- `lru.range(..(cutoff, 0, [0; 32]))`
unfoldable pub expired : State → ℕ → List (Row Nonce)
unfolding cutoff
expired s now =
    rows_below Nonce-discrete bytes_lt
      (record { instant = cutoff now; seq = 0; key = replicate 32 0 }) s.lru

-- The rows past their lifetime go, with their entries.
unfoldable pub collect : State → ℕ → State
unfolding expired
collect s now =
    let (seen', lru') = remove_all Nonce-discrete (expired s now) s.seen s.lru in
    record s { seen = seen'; lru = lru' }

-- From the test of the cap on: make room and record the nonce.
unfoldable pub record_nonce : State → ℕ → Nonce → State
record_nonce s now nonce =
    let (seen', lru', _) =
      if leb max_tracked_nonces (length s.seen)
      then evict_oldest Nonce-discrete s.seen s.lru
      else (s.seen, s.lru, false) in
    let new_seq = s.next_lru_seq in
    record {
      seen = insert Nonce-discrete nonce (now, new_seq) seen';
      lru =
          insert_row Nonce-discrete bytes_lt (record { instant = now; seq = new_seq; key = nonce })
            lru';
      next_lru_seq = (s.next_lru_seq + 1) % 2 ^ 64;
    }

-- A nonce whose lifetime is over at this very instant loses its old row first.
unfoldable pub judge : State → ℕ → Nonce → Option (ℕ × ℕ) → State × Observation
unfolding record_nonce
judge s now nonce none = (record_nonce s now nonce, accepted)
judge s now nonce (some (seen_ts, seen_seq)) =
    if ltb (now - seen_ts) nonce_ttl
    then (s, replayed)
    else let old : Row Nonce = record { instant = seen_ts; seq = seen_seq; key = nonce } in
      (record_nonce (record s { lru = remove_row Nonce-discrete old s.lru }) now nonce, accepted)

unfoldable pub observe : State → ℕ → Nonce → State × Observation
unfolding collect judge
observe s now nonce =
    let s' = collect s now in judge s' now nonce (lookup Nonce-discrete nonce s'.seen)

unfoldable pub len : State → ℕ
len s = length s.seen

unfoldable pub is_empty : State → Bool
unfolding len
is_empty s = len s == 0
