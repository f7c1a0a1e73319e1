-- ===== src/Tee/Tenant/Slots.antt =====
-- What a tenant's session works with: one cloaking key, and rows that come back from the seal.
use ullm.Prelude.{
  ℕ, zero, suc, ◌+◌, ◌^◌, ◌≤◌, ◌≡◌, refl, sym, ap, ◌∙◌, List, [], ◌∷◌, ◌++◌, some, length,
  get_elem?, arith, All,
}
use ullm.Core.{ok}
use ullm.Crypto.Kdf.{Hkdf}
use ullm.Kvcloak.Cloak.{CloakKey, from_parts}
use ullm.Kvcloak.Seal.{GcmSiv, SealedCloakedBlock, opened, unseal_block, unseal_block-seal_block}
use ullm.Tee.Tenant.{
  TenantId, Pool, SessionSlot, info_cloak_transform, info_cloak_permute, info_cloak_nonce,
  derive_salt, session_cloak_key, slot_for, allocate, seal_from, finalize_seal,
}
use ullm.Tee.Tenant.Invariant.{IsValid, state_for-Served}

module _ (hkdf : Hkdf) (master : List ℕ) where
  session_cloak_key-ok :
      (salt session : List ℕ)
      → (key : CloakKey) × (session_cloak_key hkdf master salt session ≡ ok key)
  unfolding session_cloak_key
  session_cloak_key-ok salt session =
      let prk = hkdf.hkdf_extract salt master in
      let size = hkdf.length-extract salt master in
      let (t, made, _) = hkdf.expands prk (info_cloak_transform ++ session) 32 size (omega arith) in
      let (p, made', _) = hkdf.expands prk (info_cloak_permute ++ session) 32 size (omega arith) in
      let (n, made'', _) = hkdf.expands prk (info_cloak_nonce ++ session) 16 size (omega arith) in
      (from_parts t p n, rw (made, made', made'') refl)

  -- A call of allocate on a valid pool leaves a valid pool and returns a slot of the tenant and the
  -- session with nothing recorded.
  allocate-ok :
      (pool : Pool) (now : ℕ) (tenant : TenantId) (session kek : List ℕ)
      → IsValid hkdf master pool
      → IsValid hkdf master (allocate hkdf master pool now tenant session kek).0
        × (salt : List ℕ) × (slot : SessionSlot) × ((allocate hkdf master pool now tenant session
              kek).1
            ≡ ok slot)
        × (derive_salt hkdf master tenant ≡ ok salt)
        × (session_cloak_key hkdf master salt session ≡ ok slot.cloak_key)
        × (slot.recorded ≡ [])
  unfolding allocate slot_for
  allocate-ok pool now tenant session kek v =
      let served = state_for-Served hkdf master pool now tenant kek v in
      let (key, derived) = session_cloak_key-ok served.state.salt session in
      (
        served.valid,
        served.state.salt,
        record {
          tenant = tenant;
          session = session;
          cloak_key = key;
          kek = served.state.kek;
          recorded = [];
        },
        rw (served.answered, derived) refl,
        served.derived,
        derived,
        refl,
      )

  -- On any two valid pools of one master secret, whatever they have evicted in between, the slots
  -- of one tenant and one session have the same cloaking key, and both pools stay valid.
  pub allocate-Stable :
      (pool pool' : Pool) (now now' : ℕ) (tenant : TenantId) (session kek kek' : List ℕ)
      → IsValid hkdf master pool
      → IsValid hkdf master pool'
      → (slot : SessionSlot) × (slot' : SessionSlot) × ((allocate hkdf master pool now tenant
            session kek).1
          ≡ ok slot)
        × ((allocate hkdf master pool' now' tenant session kek').1 ≡ ok slot')
        × (slot.cloak_key ≡ slot'.cloak_key)
        × IsValid hkdf master (allocate hkdf master pool now tenant session kek).0
        × IsValid hkdf master (allocate hkdf master pool' now' tenant session kek').0
  allocate-Stable pool pool' now now' tenant session kek kek' v v' =
      let (valid, salt, slot, made, salted, keyed, _) = allocate-ok pool now tenant session kek v in
      let (valid', salt', slot', made', salted', keyed', _) =
        allocate-ok pool' now' tenant session kek' v' in
      let same : salt ≡ salt' = inverse (sym salted ∙ salted') in
      let keys : slot.cloak_key ≡ slot'.cloak_key =
        inverse_key (sym keyed ∙ ap (λ t. session_cloak_key hkdf master t session) same ∙ keyed') in
      (slot, slot', made, made', keys, valid, valid')
    where
      inverse : {u v : List ℕ} → ok u ≡ ok v → u ≡ v
      inverse q = cc

      inverse_key : {u v : CloakKey} → ok u ≡ ok v → u ≡ v
      inverse_key q = cc

module _ (cipher : GcmSiv) (slot : SessionSlot) (session_16 : length slot.session ≡ 16)
    (tenant_fits : length slot.tenant + 43 ≤ 2 ^ 36) where
  seal_from-Opens :
      (cs : List (List ℕ)) (i : ℕ)
      → All (λ c. length c ≡ 256) cs
      → i + length cs ≤ 2 ^ 64
      → (blocks : List SealedCloakedBlock) × (seal_from cipher slot i cs ≡ ok blocks)
        × ((m : ℕ) (c : List ℕ)
            → get_elem? cs m ≡ some c
            → (block : SealedCloakedBlock) × (get_elem? blocks m ≡ some block)
              × (unseal_block cipher slot.kek slot.tenant slot.session (i + m) block ≡ opened c))
  unfolding seal_from
  seal_from-Opens [] i sizes fits = ([], refl, λ m c h. absurd cc)
  seal_from-Opens (c ∷ cs) i sizes fits =
      let (block, sealed, opens, _) =
        unseal_block-seal_block cipher slot.kek slot.tenant slot.session i c session_16
          (omega (arith, fits)) sizes.0 tenant_fits in
      let (blocks, more, rest) = seal_from-Opens cs (i + 1) sizes.1 (omega (arith, fits)) in
      (block ∷ blocks, rw (sealed, more) refl, at block blocks opens rest)
    where
      at :
          (block : SealedCloakedBlock) (blocks : List SealedCloakedBlock)
          → unseal_block cipher slot.kek slot.tenant slot.session i block ≡ opened c
          → ((m : ℕ) (d : List ℕ)
              → get_elem? cs m ≡ some d
              → (b : SealedCloakedBlock) × (get_elem? blocks m ≡ some b)
                × (unseal_block cipher slot.kek slot.tenant slot.session (i + 1 + m) b ≡ opened d))
          → (m : ℕ) (d : List ℕ) → get_elem? (c ∷ cs) m ≡ some d
          → (b : SealedCloakedBlock) × (get_elem? (block ∷ blocks) m ≡ some b)
            × (unseal_block cipher slot.kek slot.tenant slot.session (i + m) b ≡ opened d)
      at block blocks opens rest zero d h =
          let same : c ≡ d = cc in
          let index : i + 0 ≡ i = omega arith in (block, refl, rw index (opens ∙ ap opened same))
      at block blocks opens rest (suc m) d h =
          let (b, there, unsealed) = rest m d h in
          let index : i + suc m ≡ i + 1 + m = omega arith in (b, there, rw index unsealed)

  -- A slot whose session has 16 bytes, whose tenant's name has at most 43 bytes less than 2 to the
  -- power 36, and whose recorded blocks, at most 2 to the power 64, have 256 bytes each, is sealed
  -- without a panic, and each sealed block opens, under the slot's key, tenant and session and its own position in
  -- the list, to the block that was recorded there.
  pub finalize_seal-Opens :
      All (λ c. length c ≡ 256) slot.recorded
      → length slot.recorded ≤ 2 ^ 64
      → (blocks : List SealedCloakedBlock) × (finalize_seal cipher slot ≡ ok blocks)
        × ((m : ℕ) (c : List ℕ)
            → get_elem? slot.recorded m ≡ some c
            → (block : SealedCloakedBlock) × (get_elem? blocks m ≡ some block)
              × (unseal_block cipher slot.kek slot.tenant slot.session m block ≡ opened c))
  unfolding finalize_seal
  finalize_seal-Opens sizes fits =
      let (blocks, sealed, opens) = seal_from-Opens slot.recorded 0 sizes (omega (arith, fits)) in
      (
        blocks,
        sealed,
        λ m c h.
            let (block, there, unsealed) = opens m c h in
            let index : m ≡ 0 + m = omega arith in
            (
              block,
              there,
              ap (λ i. unseal_block cipher slot.kek slot.tenant slot.session i block) index
                  ∙ unsealed,
            ),
      )
