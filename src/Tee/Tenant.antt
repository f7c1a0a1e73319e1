-- ===== src/Tee/Tenant.antt =====
-- crates/ullm-tee/src/tenant.rs: the pool of tenants' salts and sealing keys, at most a fixed number
-- of them, the one used longest ago evicted, and the cloaking keys of sessions.
pub mod Invariant
pub mod Slots
pub mod Tests
use ullm.Prelude.{
  ℕ, ◌+◌, ◌*◌, ◌%◌, ◌^◌, leb, false, if◌then◌else◌, List, [], ◌∷◌, ◌++◌, Option, none, some, length,
  ℕ_discrete,
}
use mathlib.Core.List.{lookup}
use ullm.Core.{Result, ok, err, panic, expect, ◌>>=◌}
use ullm.Crypto.Kdf.{Hkdf}
use ullm.Kvcloak.Cloak.{CloakKey, from_parts, cloak}
use ullm.Kvcloak.Seal.{GcmSiv, SealedCloakedBlock, seal_block}
use ullm.Lru.{bytes_lt, Row, remove_row, insert_row, insert, evict_oldest}

abbrev pub max_tracked_tenants : ℕ
max_tracked_tenants = 16 * 1024

abbrev pub info_tenant_salt : List ℕ
info_tenant_salt =
    85 ∷ 76 ∷ 76 ∷ 77 ∷ 45 ∷ 118 ∷ 49 ∷ 32 ∷ 116 ∷ 101 ∷ 110 ∷ 97 ∷ 110 ∷ 116 ∷ 32 ∷ 99 ∷ 97 ∷ 99
    ∷ 104 ∷ 101 ∷ 32 ∷ 115 ∷ 97 ∷ 108 ∷ 116 ∷ []

abbrev pub info_cloak_transform : List ℕ
info_cloak_transform =
    85 ∷ 76 ∷ 76 ∷ 77 ∷ 45 ∷ 118 ∷ 49 ∷ 32 ∷ 99 ∷ 108 ∷ 111 ∷ 97 ∷ 107 ∷ 32 ∷ 116 ∷ 114 ∷ 97 ∷ 110
    ∷ 115 ∷ 102 ∷ 111 ∷ 114 ∷ 109 ∷ []

abbrev pub info_cloak_permute : List ℕ
info_cloak_permute =
    85 ∷ 76 ∷ 76 ∷ 77 ∷ 45 ∷ 118 ∷ 49 ∷ 32 ∷ 99 ∷ 108 ∷ 111 ∷ 97 ∷ 107 ∷ 32 ∷ 112 ∷ 101 ∷ 114 ∷ 109
    ∷ 117 ∷ 116 ∷ 101 ∷ []

abbrev pub info_cloak_nonce : List ℕ
info_cloak_nonce =
    85 ∷ 76 ∷ 76 ∷ 77 ∷ 45 ∷ 118 ∷ 49 ∷ 32 ∷ 99 ∷ 108 ∷ 111 ∷ 97 ∷ 107 ∷ 32 ∷ 110 ∷ 111 ∷ 110 ∷ 99
    ∷ 101 ∷ []

-- The bytes of a tenant's name.
abbrev pub TenantId : Type 0
TenantId = List ℕ

unfoldable pub TenantId-discrete : Discrete TenantId
TenantId-discrete = hlevel ℕ_discrete

pub record TenantState : Type 0 where
  pub salt : List ℕ
  pub kek : List ℕ
  pub last_seen : ℕ
  pub lru_seq : ℕ

pub record Pool : Type 0 where
  pub map : List (TenantId × TenantState)
  pub lru : List (Row TenantId)
  pub next_lru_seq : ℕ

unfoldable pub empty_pool : Pool
empty_pool = record { map = []; lru = []; next_lru_seq = 0 }

unfoldable pub tenant_count : Pool → ℕ
tenant_count pool = length pool.map

pub record SessionSlot : Type 0 where
  pub tenant : TenantId
  pub session : List ℕ
  pub cloak_key : CloakKey
  pub kek : List ℕ
  pub recorded : List (List ℕ)

module _ (hkdf : Hkdf) (master : List ℕ) where
  unfoldable pub derive_salt : TenantId → Result (List ℕ)
  derive_salt tenant =
      expect (hkdf.hkdf_expand (hkdf.hkdf_extract info_tenant_salt master) tenant 32)

  -- A tenant in the pool: its row moves to the end.
  unfoldable pub refresh : Pool → ℕ → TenantId → TenantState → Pool × Result TenantState
  refresh pool now tenant s =
      let old : Row TenantId = record { instant = s.last_seen; seq = s.lru_seq; key = tenant } in
      let new_seq = pool.next_lru_seq in
      let s' : TenantState = record {
        salt = s.salt;
        kek = s.kek;
        last_seen = now;
        lru_seq = new_seq;
      } in
      (
        record {
          map = insert TenantId-discrete tenant s' pool.map;
          lru =
              insert_row TenantId-discrete bytes_lt
                (record { instant = now; seq = new_seq; key = tenant })
                (remove_row TenantId-discrete old pool.lru);
          next_lru_seq = (pool.next_lru_seq + 1) % 2 ^ 64;
        },
        ok s',
      )

  -- The insertion of a new state beside maps that have room.
  unfoldable pub place :
      List (TenantId × TenantState)
      → List (Row TenantId)
      → ℕ
      → ℕ
      → TenantId
      → List ℕ
      → Result (List ℕ)
      → Pool × Result TenantState
  place map' lru' seq now tenant kek (ok salt) =
      let state : TenantState = record { salt = salt; kek = kek; last_seen = now; lru_seq = seq } in
      (
        record {
          map = insert TenantId-discrete tenant state map';
          lru =
              insert_row TenantId-discrete bytes_lt
                (record { instant = now; seq = seq; key = tenant }) lru';
          next_lru_seq = (seq + 1) % 2 ^ 64;
        },
        ok state,
      )
  place map' lru' seq now tenant kek (err e) =
      (record { map = map'; lru = lru'; next_lru_seq = seq }, err e)
  place map' lru' seq now tenant kek panic =
      (record { map = map'; lru = lru'; next_lru_seq = seq }, panic)

  -- A tenant that has no entry: make room, then insert it with a key that was drawn.
  unfoldable pub enrol : Pool → ℕ → TenantId → List ℕ → Pool × Result TenantState
  enrol pool now tenant kek =
      let (map', lru', _) =
        if leb max_tracked_tenants (length pool.map)
        then evict_oldest TenantId-discrete pool.map pool.lru
        else (pool.map, pool.lru, false) in
      place map' lru' pool.next_lru_seq now tenant kek (derive_salt tenant)

  unfoldable pub state_for : Pool → ℕ → TenantId → List ℕ → Pool × Result TenantState
  state_for pool now tenant kek = found (lookup TenantId-discrete tenant pool.map)
    where
      found : Option TenantState → Pool × Result TenantState
      found (some s) = refresh pool now tenant s
      found none = enrol pool now tenant kek

  unfoldable pub session_cloak_key : List ℕ → List ℕ → Result CloakKey
  session_cloak_key tenant_salt session = do
    let prk = hkdf.hkdf_extract tenant_salt master
    t ← expect (hkdf.hkdf_expand prk (info_cloak_transform ++ session) 32)
    p ← expect (hkdf.hkdf_expand prk (info_cloak_permute ++ session) 32)
    n ← expect (hkdf.hkdf_expand prk (info_cloak_nonce ++ session) 16)
    ok (from_parts t p n)

  -- `allocate`, after the state of the tenant.
  unfoldable pub slot_for : TenantId → List ℕ → TenantState → Result SessionSlot
  slot_for tenant session state = do
    cloak_key ← session_cloak_key state.salt session
    ok (record {
      tenant = tenant;
      session = session;
      cloak_key = cloak_key;
      kek = state.kek;
      recorded = [];
    })

  unfoldable pub allocate : Pool → ℕ → TenantId → List ℕ → List ℕ → Pool × Result SessionSlot
  allocate pool now tenant session kek =
      let (pool', state) = state_for pool now tenant kek in
      (pool', state >>= slot_for tenant session)

  unfoldable pub record_kv : SessionSlot → ℕ → List ℕ → Result SessionSlot
  record_kv slot position raw_kv = do
    cloaked ← cloak hkdf slot.cloak_key position raw_kv
    ok (record slot { recorded = slot.recorded ++ (cloaked ∷ []) })

unfoldable pub cloaked_count : SessionSlot → ℕ
cloaked_count slot = length slot.recorded

-- The loop of `finalize_seal`, with the position counted from `i` on.
unfoldable pub seal_from :
    GcmSiv → SessionSlot → ℕ → List (List ℕ) → Result (List SealedCloakedBlock)
seal_from cipher slot i [] = ok []
seal_from cipher slot i (c ∷ cs) = do
  sealed ← seal_block cipher slot.kek slot.tenant slot.session i c
  rest ← seal_from cipher slot (i + 1) cs
  ok (sealed ∷ rest)

unfoldable pub finalize_seal : GcmSiv → SessionSlot → Result (List SealedCloakedBlock)
finalize_seal cipher slot = seal_from cipher slot 0 slot.recorded
