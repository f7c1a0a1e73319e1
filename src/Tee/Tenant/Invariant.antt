-- ===== src/Tee/Tenant/Invariant.antt =====
-- The pool of tenants stays paired, sorted and capped, and every entry's salt is the one that the
-- master secret gives its tenant.
use ullm.Prelude.{
  ℕ, ◌+◌, ◌≤◌, ◌≡◌, refl, sym, ap, ◌∙◌, leb, List, [], ◌∷◌, none, some, arith, length, Bool-cases,
  Option-cases, inl, inr,
}
use mathlib.Core.List.{lookup, Nodup, Nodup-nil}
use mathlib.Core.List.Perm
use ullm.Core.{Result, ok}
use ullm.Crypto.Kdf.{Hkdf}
use ullm.Lru.{bytes_lt, Row, remove, remove_row, insert_row, insert, evict_oldest}
use ullm.Lru.Synced.{Synced, row, keys, remove-Synced, remove_absent-Synced, insert-Synced}
use ullm.Lru.Order.{IsSorted, remove-IsSorted, insert-IsSorted}
use ullm.Lru.Lookup.{
  length-remove, length-remove-le, length-insert, lookup-insert_self, lookup-insert_ne,
  lookup-remove_ne, lookup-remove_self,
}
use ullm.Lru.Evict.{IsReady, evict-IsReady, evict_room}
use ullm.Tee.Tenant.{
  TenantId, TenantId-discrete, TenantState, Pool, empty_pool, max_tracked_tenants, info_tenant_salt,
  derive_salt, refresh, place, enrol, state_for,
}

abbrev pub stamp : TenantState → ℕ × ℕ
stamp s = (s.last_seen, s.lru_seq)

module _ (hkdf : Hkdf) (master : List ℕ) where
  abbrev pub Salted : List (TenantId × TenantState) → Type 0
  Salted m =
      (tenant : TenantId) (s : TenantState)
      → lookup TenantId-discrete tenant m ≡ some s
      → derive_salt hkdf master tenant ≡ ok s.salt

  -- The set has exactly the rows of the map, oldest first, there are at most 16,384 entries, and
  -- every salt is the derived one.
  pub record IsValid (pool : Pool) : Type 0 where
    pub paired : Synced TenantId-discrete stamp pool.map pool.lru
    pub sorted : IsSorted pool.lru
    pub capped : length pool.map ≤ 16384
    pub salted : Salted pool.map

  pub empty_pool-IsValid : IsValid empty_pool
  unfolding empty_pool lookup
  empty_pool-IsValid = record {
    paired = record { same = Perm.refl []; distinct = Nodup-nil };
    sorted = tt;
    capped = omega arith;
    salted = λ tenant s h. absurd cc;
  }

  insert-Salted :
      (tenant : TenantId) (s : TenantState) (m : List (TenantId × TenantState))
      → derive_salt hkdf master tenant ≡ ok s.salt
      → Salted m
      → Salted (insert TenantId-discrete tenant s m)
  insert-Salted tenant s m own others q t h = elim (TenantId-discrete q tenant) [
    | yes e ↦
        let found = lookup-insert_self TenantId-discrete tenant s m in
        let same : s ≡ t = inverse (
          sym found
          ∙ ap (λ k. lookup TenantId-discrete k (insert TenantId-discrete tenant s m)) (sym e)
          ∙ h) in
        ap (derive_salt hkdf master) e ∙ own ∙ ap (λ (u : TenantState). ok u.salt) same
    | no other ↦ others q t (sym (lookup-insert_ne TenantId-discrete q tenant s m other) ∙ h)
  ]
    where
      inverse : {u v : TenantState} → some u ≡ some v → u ≡ v
      inverse q = cc

  remove-Salted :
      (k : TenantId) (m : List (TenantId × TenantState))
      → Nodup (keys TenantId-discrete stamp m)
      → Salted m
      → Salted (remove TenantId-discrete k m)
  remove-Salted k m d all q t h = elim (TenantId-discrete q k) [
    | yes e ↦ absurd (
        nothing (
          sym (lookup-remove_self TenantId-discrete k m d)
          ∙ ap (λ j. lookup TenantId-discrete j (remove TenantId-discrete k m)) (sym e)
          ∙ h))
    | no other ↦ all q t (sym (lookup-remove_ne TenantId-discrete q k m other) ∙ h)
  ]
    where
      nothing : none ≡ some t → ⊥
      nothing q = cc

  evict-Salted :
      (m : List (TenantId × TenantState)) (l : List (Row TenantId))
      → Nodup (keys TenantId-discrete stamp m)
      → Salted m
      → Salted (evict_oldest TenantId-discrete m l).0
  unfolding evict_oldest
  evict-Salted m [] d all = all
  evict-Salted m (oldest ∷ l) d all = remove-Salted oldest.key m d all

  -- An entry written beside a table that is ready for it.
  written :
      (tenant : TenantId) (s : TenantState) (m : List (TenantId × TenantState))
      (l : List (Row TenantId)) (next : ℕ)
      → IsReady TenantId-discrete stamp tenant m l
      → length (remove TenantId-discrete tenant m) + 1 ≤ 16384
      → derive_salt hkdf master tenant ≡ ok s.salt
      → Salted m
      → IsValid (record {
        map = insert TenantId-discrete tenant s m;
        lru = insert_row TenantId-discrete bytes_lt (row TenantId-discrete stamp tenant s) l;
        next_lru_seq = next;
      })
  written tenant s m l next ready room own others = record {
    paired = insert-Synced TenantId-discrete stamp bytes_lt tenant s m l ready.distinct ready.rest;
    sorted = insert-IsSorted TenantId-discrete bytes_lt _ l ready.sorted;
    capped = omega (arith, length-insert TenantId-discrete tenant s m, room);
    salted = insert-Salted tenant s m own others;
  }

  -- What a call leaves: a valid pool, and the state of the tenant with its derived salt.
  pub record Served (tenant : TenantId) (out : Pool × Result TenantState) : Type 0 where
    pub valid : IsValid out.0
    pub state : TenantState
    pub answered : out.1 ≡ ok state
    pub derived : derive_salt hkdf master tenant ≡ ok state.salt
    pub kept : lookup TenantId-discrete tenant out.0.map ≡ some state

  refresh-Served :
      (pool : Pool) (now : ℕ) (tenant : TenantId) (s : TenantState)
      → lookup TenantId-discrete tenant pool.map ≡ some s
      → IsValid pool
      → Served tenant (refresh hkdf master pool now tenant s)
  unfolding refresh
  refresh-Served pool now tenant s found v =
      let own = v.salted tenant s found in
      record {
        valid =
            written tenant _ pool.map
              (remove_row TenantId-discrete (row TenantId-discrete stamp tenant s) pool.lru) _
              (record {
                distinct = v.paired.distinct;
                rest =
                    remove-Synced TenantId-discrete stamp tenant s pool.map pool.lru v.paired found;
                sorted = remove-IsSorted TenantId-discrete _ pool.lru v.sorted;
              })
              (omega (arith, length-remove TenantId-discrete tenant s pool.map found, v.capped)) own
              v.salted;
        state = _;
        answered = refl;
        derived = own;
        kept = lookup-insert_self TenantId-discrete tenant _ pool.map;
      }

  derive_salt-ok :
      (tenant : TenantId) → (salt : List ℕ) × (derive_salt hkdf master tenant ≡ ok salt)
  unfolding derive_salt
  derive_salt-ok tenant =
      let (salt, expanded, _) =
        hkdf.expands (hkdf.hkdf_extract info_tenant_salt master) tenant 32
          (hkdf.length-extract info_tenant_salt master) (omega arith) in
      (salt, rw expanded refl)

  place-Served :
      (m : List (TenantId × TenantState)) (l : List (Row TenantId)) (seq now : ℕ)
      (tenant : TenantId) (kek : List ℕ)
      → IsReady TenantId-discrete stamp tenant m l
      → length (remove TenantId-discrete tenant m) + 1 ≤ 16384
      → Salted m
      → Served tenant (place hkdf master m l seq now tenant kek (derive_salt hkdf master tenant))
  unfolding place
  place-Served m l seq now tenant kek ready room others =
      let (salt, derived) = derive_salt-ok tenant in
      let state : TenantState = record { salt = salt; kek = kek; last_seen = now; lru_seq = seq } in
      rw derived (record {
        valid = written tenant state m l _ ready room derived others;
        state = state;
        answered = refl;
        derived = derived;
        kept = lookup-insert_self TenantId-discrete tenant state m;
      })

  enrol-Served :
      (pool : Pool) (now : ℕ) (tenant : TenantId) (kek : List ℕ)
      → lookup TenantId-discrete tenant pool.map ≡ none
      → IsValid pool
      → Served tenant (enrol hkdf master pool now tenant kek)
  unfolding enrol
  enrol-Served pool now tenant kek absent v =
      elim (Bool-cases (leb max_tracked_tenants (length pool.map))) [
        | inl full ↦ rw full (
            place-Served (evict_oldest TenantId-discrete pool.map pool.lru).0
              (evict_oldest TenantId-discrete pool.map pool.lru).1 pool.next_lru_seq now tenant kek
              (evict-IsReady TenantId-discrete stamp tenant pool.map pool.lru ready)
              (evict_room TenantId-discrete stamp 16384 tenant pool.map pool.lru (omega arith)
                v.capped ready)
              (evict-Salted pool.map pool.lru v.paired.distinct v.salted))
        | inr room ↦ rw room (
            place-Served pool.map pool.lru pool.next_lru_seq now tenant kek ready
              (ground (arith, length-remove-le TenantId-discrete tenant pool.map, room)) v.salted)
      ]
    where
      ready : IsReady TenantId-discrete stamp tenant pool.map pool.lru
      ready = record {
        distinct = v.paired.distinct;
        rest =
            remove_absent-Synced TenantId-discrete stamp tenant pool.map pool.lru v.paired absent;
        sorted = v.sorted;
      }

  -- Every call on a valid pool leaves one that is paired, sorted and within its cap, and returns
  -- the state that the map then has for the tenant, with the salt that the master secret gives
  -- this tenant.
  pub state_for-Served :
      (pool : Pool) (now : ℕ) (tenant : TenantId) (kek : List ℕ)
      → IsValid pool
      → Served tenant (state_for hkdf master pool now tenant kek)
  unfolding state_for
  state_for-Served pool now tenant kek v =
      elim (Option-cases (lookup TenantId-discrete tenant pool.map)) [
        | inl absent ↦ rw absent (enrol-Served pool now tenant kek absent v)
        | inr (s, found) ↦ rw found (refresh-Served pool now tenant s found v)
      ]
