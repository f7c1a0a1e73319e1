-- ===== src/Tee/Tenant/Tests.antt =====
-- The theorems on the pool of tenants at a pool that one tenant has entered, and at a slot with one
-- recorded block.
use ullm.Prelude.{ℕ, ◌≡◌, refl, List, [], ◌∷◌, some, length-replicate, get_elem?, replicate, arith}
use ullm.Core.{ok}
use ullm.Crypto.Tests.{hkdf}
use ullm.Kvcloak.Tests.{gcm_siv}
use ullm.Kvcloak.Seal.{SealedCloakedBlock, opened, unseal_block}
use ullm.Tee.Tenant.{Pool, SessionSlot, empty_pool, state_for, allocate, finalize_seal}
use ullm.Tee.Tenant.Invariant.{IsValid, Served, empty_pool-IsValid, state_for-Served}
use ullm.Tee.Tenant.Slots.{allocate-Stable, finalize_seal-Opens}

abbrev master : List ℕ
master = replicate 32 1

abbrev session : List ℕ
session = replicate 16 2

abbrev acme : List ℕ
acme = 97 ∷ []

abbrev bolt : List ℕ
bolt = 98 ∷ []

abbrev used_pool : Pool
used_pool = (state_for hkdf master empty_pool 3 bolt (replicate 32 4)).0

used_pool-IsValid : IsValid hkdf master used_pool
used_pool-IsValid =
    (state_for-Served hkdf master empty_pool 3 bolt (replicate 32 4)
      (empty_pool-IsValid hkdf master)).valid

state_for-Served_example :
    Served hkdf master acme (state_for hkdf master used_pool 5 acme (replicate 32 6))
state_for-Served_example =
    state_for-Served hkdf master used_pool 5 acme (replicate 32 6) used_pool-IsValid

allocate-Stable_example :
    (slot : SessionSlot) × (slot' : SessionSlot) × ((allocate hkdf master empty_pool 1 acme session
        (replicate 32 5)).1
      ≡ ok slot)
    × ((allocate hkdf master used_pool 9 acme session (replicate 32 6)).1 ≡ ok slot')
    × (slot.cloak_key ≡ slot'.cloak_key)
    × IsValid hkdf master (allocate hkdf master empty_pool 1 acme session (replicate 32 5)).0
    × IsValid hkdf master (allocate hkdf master used_pool 9 acme session (replicate 32 6)).0
allocate-Stable_example =
    allocate-Stable hkdf master empty_pool used_pool 1 9 acme session (replicate 32 5)
      (replicate 32 6) (empty_pool-IsValid hkdf master) used_pool-IsValid

abbrev slot : SessionSlot
slot = record {
  tenant = acme;
  session = session;
  cloak_key = record {
    transform_key = replicate 32 1;
    permute_seed = replicate 32 2;
    session_nonce = replicate 16 3;
  };
  kek = replicate 32 4;
  recorded = replicate 256 7 ∷ [];
}

finalize_seal-Opens_example :
    (blocks : List SealedCloakedBlock) × (finalize_seal gcm_siv slot ≡ ok blocks)
    × ((m : ℕ) (c : List ℕ)
        → get_elem? slot.recorded m ≡ some c
        → (block : SealedCloakedBlock) × (get_elem? blocks m ≡ some block)
          × (unseal_block gcm_siv slot.kek slot.tenant slot.session m block ≡ opened c))
finalize_seal-Opens_example =
    finalize_seal-Opens gcm_siv slot refl (omega arith) (length-replicate {A = ℕ} 256 7, tt)
      (omega arith)
