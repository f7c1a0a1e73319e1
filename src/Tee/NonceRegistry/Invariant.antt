-- ===== src/Tee/NonceRegistry/Invariant.antt =====
-- The registry of crates/ullm-tee/src/nonce_registry.rs stays paired, sorted and capped.
use ullm.Prelude.{
  ℕ, ◌+◌, ◌-◌, ◌%◌, ◌^◌, ltb, ◌≤◌, ◌≡◌, refl, List, [], none, some, Option, arith, length, leb,
  Bool-cases, inl, inr,
}
use mathlib.Core.List.{lookup, Nodup, Nodup-nil}
use mathlib.Core.List.Perm
use ullm.Lru.{bytes_lt, Row, remove, remove_row, insert_row, insert, evict_oldest}
use ullm.Lru.Synced.{Synced, remove-Synced, remove_absent-Synced, insert-Synced, length-Synced}
use ullm.Lru.Order.{IsSorted, remove-IsSorted, insert-IsSorted}
use ullm.Lru.Below.{mem-rows_below, rows_below-Nodup}
use ullm.Lru.Lookup.{length-remove-le, length-insert}
use ullm.Lru.Evict.{
  IsReady, evict-IsReady, evict_room, remove_all-Synced, remove_all-IsSorted, length-remove_all,
  Nodup-rows,
}
use ullm.Tee.NonceRegistry.{
  Nonce, Nonce-discrete, max_tracked_nonces, nonce_ttl, State, new, collect, record_nonce, judge,
  observe, expired,
}

abbrev pub stamp : ℕ × ℕ → ℕ × ℕ
stamp v = v

-- The set has exactly the rows of the map's entries, oldest first, and the map at most the cap.
pub record IsValid (s : State) : Type 0 where
  pub paired : Synced Nonce-discrete stamp s.seen s.lru
  pub sorted : IsSorted s.lru
  pub capped : length s.seen ≤ max_tracked_nonces

pub new-IsValid : IsValid new
unfolding new
new-IsValid = record {
  paired = record { same = Perm.refl []; distinct = Nodup-nil };
  sorted = tt;
  capped = omega arith;
}

pub collect-IsValid : (s : State) (now : ℕ) → IsValid s → IsValid (collect s now)
unfolding collect
collect-IsValid s now v = record {
  paired =
      remove_all-Synced Nonce-discrete stamp (expired s now) s.seen s.lru
        (rows_below-Nodup Nonce-discrete bytes_lt _ s.lru distinct_rows)
        (λ r x. ((mem-rows_below Nonce-discrete bytes_lt _ r s.lru).0 x).0) distinct_rows v.paired;
  sorted = remove_all-IsSorted Nonce-discrete stamp (expired s now) s.seen s.lru v.sorted;
  capped =
      omega (arith, length-remove_all Nonce-discrete stamp (expired s now) s.seen s.lru, v.capped);
}
  where
    distinct_rows : Nodup s.lru
    distinct_rows = Nodup-rows Nonce-discrete stamp s.seen s.lru v.paired

-- A table with room for the nonce, its old row gone, takes it.
record_nonce-IsValid :
    (s : State) (now : ℕ) (nonce : Nonce)
    → IsReady Nonce-discrete stamp nonce s.seen s.lru
    → length s.seen ≤ max_tracked_nonces
    → IsValid (record_nonce s now nonce)
unfolding record_nonce
record_nonce-IsValid s now nonce ready le =
    elim (Bool-cases (leb max_tracked_nonces (length s.seen))) [
      | inl full ↦ rw full (
          written (evict_oldest Nonce-discrete s.seen s.lru).0
            (evict_oldest Nonce-discrete s.seen s.lru).1
            (evict-IsReady Nonce-discrete stamp nonce s.seen s.lru ready)
            (evict_room Nonce-discrete stamp max_tracked_nonces nonce s.seen s.lru (omega arith) le
              ready))
      | inr room ↦ rw room (
          written s.seen s.lru ready (ground (arith, length-remove-le Nonce-discrete nonce s.seen)))
    ]
  where
    written :
        (m : List (Nonce × (ℕ × ℕ))) (l : List (Row Nonce))
        → IsReady Nonce-discrete stamp nonce m l
        → length (remove Nonce-discrete nonce m) + 1 ≤ max_tracked_nonces
        → IsValid (record {
          seen = insert Nonce-discrete nonce (now, s.next_lru_seq) m;
          lru =
              insert_row Nonce-discrete bytes_lt
                (record { instant = now; seq = s.next_lru_seq; key = nonce })
                l;
          next_lru_seq = (s.next_lru_seq + 1) % 2 ^ 64;
        })
    written m l h room = record {
      paired =
          insert-Synced Nonce-discrete stamp bytes_lt nonce (now, s.next_lru_seq) m l h.distinct
            h.rest;
      sorted = insert-IsSorted Nonce-discrete bytes_lt _ l h.sorted;
      capped = omega (arith, length-insert Nonce-discrete nonce (now, s.next_lru_seq) m);
    }

judge-IsValid :
    (s : State) (now : ℕ) (nonce : Nonce) (entry : Option (ℕ × ℕ))
    → lookup Nonce-discrete nonce s.seen ≡ entry
    → IsValid s
    → IsValid (judge s now nonce entry).0
unfolding judge
judge-IsValid s now nonce none absent v =
    record_nonce-IsValid s now nonce
      (record {
        distinct = v.paired.distinct;
        rest = remove_absent-Synced Nonce-discrete stamp nonce s.seen s.lru v.paired absent;
        sorted = v.sorted;
      })
      v.capped
judge-IsValid s now nonce (some (ts, seq)) present v =
    elim (Bool-cases (ltb (now - ts) nonce_ttl)) [
      | inl live ↦ rw live v
      | inr over ↦ rw over (
          record_nonce-IsValid
            (record s {
              lru =
                  remove_row Nonce-discrete (record { instant = ts; seq = seq; key = nonce }) s.lru;
            })
            now nonce
            (record {
              distinct = v.paired.distinct;
              rest =
                  remove-Synced Nonce-discrete stamp nonce (ts, seq) s.seen s.lru v.paired present;
              sorted = remove-IsSorted Nonce-discrete _ s.lru v.sorted;
            })
            v.capped)
    ]

-- Every call of observe on a valid registry leaves one whose map and ordered set are paired row by
-- row, whose set is sorted by age and whose map is within its cap.
pub observe-IsValid :
    (s : State) (now : ℕ) (nonce : Nonce) → IsValid s → IsValid (observe s now nonce).0
unfolding observe
observe-IsValid s now nonce v =
    judge-IsValid (collect s now) now nonce (lookup Nonce-discrete nonce (collect s now).seen) refl
      (collect-IsValid s now v)

-- After every call on a valid registry, the map and the ordered set have equal sizes, so the
-- code's assertion never fails.
pub length-observe :
    (s : State) (now : ℕ) (nonce : Nonce)
    → IsValid s
    → length (observe s now nonce).0.seen ≡ length (observe s now nonce).0.lru
length-observe s now nonce v =
    length-Synced Nonce-discrete stamp _ _ (observe-IsValid s now nonce v).paired
