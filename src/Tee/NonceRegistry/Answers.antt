-- ===== src/Tee/NonceRegistry/Answers.antt =====
-- What the registry of crates/ullm-tee/src/nonce_registry.rs answers.
use ullm.Prelude.{
  ℕ, zero, suc, ◌-◌, ◌≤◌, ◌<◌, ◌≡◌, ◌≢◌, ◌⊎◌, refl, sym, ap, ◌∙◌, Bool, true, false, List, [], ◌∷◌,
  none, some, Option, arith, length, ltb, Bool-cases, inl, inr, if◌then◌else◌, All, replicate,
}
use mathlib.Core.List.{lookup, Mem, mem-cons_self, mem-cons, not-mem-nil}
use mathlib.Core.List.Perm
use mathlib.Core.HLevel.{Π_prop, ⊥_prop}
use mathlib.Core.Logic.Or
use ullm.Lru.{bytes_lt, Row, row_lt, remove_row}
use ullm.Lru.Synced.{entry_of_row, Mem-row}
use ullm.Lru.Below.{mem-rows_below}
use ullm.Lru.Evict.{lookup-remove_all, remove_all_cases, gone-remove_all}
use ullm.Lru.Lookup.{lookup-insert_self}
use ullm.Tee.NonceRegistry.{
  Nonce, Nonce-discrete, nonce_ttl, State, accepted, replayed, collect, cutoff, expired,
  record_nonce, judge, observe,
}
use ullm.Tee.NonceRegistry.Invariant.{stamp, IsValid}

-- No 32 bytes stand before the 32 zeros.
zeros_least : (n : ℕ) (xs : List ℕ) → length xs ≡ n → bytes_lt xs (replicate n 0) ≡ false
unfolding bytes_lt
zeros_least zero xs e = refl
zeros_least (suc n) [] e = absurd (omega arith)
zeros_least (suc n) (x ∷ xs) e = ground (arith, zeros_least n xs)

-- A row below the bound is older than the cutoff.
older :
    (r : Row Nonce) (c : ℕ)
    → length r.key ≡ 32
    → row_lt bytes_lt r (record { instant = c; seq = 0; key = replicate 32 0 }) ≡ true
    → r.instant < c
unfolding row_lt
older r c e h = ground (arith, zeros_least 32 r.key)

All-of-mem {ℓ κ} :
    {A : Type ℓ} (P : A → Type κ) (xs : List A) → ((x : A) → Mem x xs → P x) → All P xs
All-of-mem P [] h = tt
All-of-mem P (x ∷ xs) h = (h x mem-cons_self, All-of-mem P xs (λ y m. h y (mem-cons.1 (Or.inr m))))

-- A row of the set that has the nonce bears the instant of the nonce's entry.
instant_of_row :
    (s : State) (nonce : Nonce)
    → IsValid s
    → (ts seq : ℕ) (r : Row Nonce) → lookup Nonce-discrete nonce s.seen ≡ some (ts, seq)
    → Mem r s.lru
    → nonce ≡ r.key
    → r.instant ≡ ts
instant_of_row s nonce v ts seq r found in_set same =
    let (value, there, is_row) = entry_of_row Nonce-discrete stamp r s.seen s.lru v.paired in_set in
    let both : some (ts, seq) ≡ some value =
      sym found ∙ ap (λ k. lookup Nonce-discrete k s.seen) same ∙ there in
    ap (λ (t : Row Nonce). t.instant) (sym is_row) ∙ first_eq both
  where
    first_eq : {a b : ℕ × ℕ} → some b ≡ some a → a.0 ≡ b.0
    first_eq h = ground arith

module _ (s : State) (now : ℕ) (nonce : Nonce) (v : IsValid s) where
  -- An entry that is not older than the cutoff survives the collection.
  pub lookup-collect :
      (ts seq : ℕ)
      → length nonce ≡ 32
      → lookup Nonce-discrete nonce s.seen ≡ some (ts, seq)
      → cutoff now ≤ ts
      → lookup Nonce-discrete nonce (collect s now).seen ≡ some (ts, seq)
  unfolding collect
  lookup-collect ts seq e found young =
      lookup-remove_all Nonce-discrete stamp nonce (expired s now) s.seen s.lru
        (All-of-mem (λ r. nonce ≢ r.key) (expired s now) others)
      ∙ found
    where
      others : (r : Row Nonce) → Mem r (expired s now) → nonce ≢ r.key
      others r x same =
          let (in_set, below) = (mem-rows_below Nonce-discrete bytes_lt _ r s.lru).0 x in
          let age : r.instant ≡ ts = instant_of_row s nonce v ts seq r found in_set same in
          let old : r.instant < cutoff now =
            older r (cutoff now) (ap length (sym same) ∙ e) below in
          absurd (omega arith)

  abbrev collected : Option (ℕ × ℕ)
  collected = lookup Nonce-discrete nonce (collect s now).seen

  collected_cases : (collected ≡ none) ⊎ (collected ≡ lookup Nonce-discrete nonce s.seen)
  unfolding collect
  collected_cases =
      remove_all_cases Nonce-discrete stamp nonce (expired s now) s.seen s.lru v.paired.distinct

  observe_of_collected :
      (entry : Option (ℕ × ℕ))
      → collected ≡ entry
      → (observe s now nonce).1 ≡ (judge (collect s now) now nonce entry).1
  unfolding observe
  observe_of_collected entry e = rw e

-- Whether the entry of a nonce, if there is one, still counts.
abbrev pub alive : ℕ → Option (ℕ × ℕ) → Bool
alive now none = false
alive now (some (ts, seq)) = ltb (now - ts) nonce_ttl

judge-alive :
    (s : State) (now : ℕ) (nonce : Nonce) (entry : Option (ℕ × ℕ))
    → (judge s now nonce entry).1 ≡ (if alive now entry then replayed else accepted)
unfolding judge
judge-alive s now nonce none = refl
judge-alive s now nonce (some (ts, seq)) = ground arith

answer_of :
    (s : State) (now : ℕ) (nonce : Nonce) (v : IsValid s) (entry : Option (ℕ × ℕ))
    → lookup Nonce-discrete nonce (collect s now).seen ≡ entry
    → (observe s now nonce).1 ≡ (if alive now entry then replayed else accepted)
answer_of s now nonce v entry e =
    observe_of_collected s now nonce v entry e ∙ judge-alive (collect s now) now nonce entry

cutoff_late : (now : ℕ) → nonce_ttl ≤ now → cutoff now ≡ now - nonce_ttl
unfolding cutoff
cutoff_late now h = ground arith

cutoff_early : (now : ℕ) → now < nonce_ttl → cutoff now ≡ now
unfolding cutoff
cutoff_early now h = ground arith

-- An entry past its lifetime does not count, collected or not.
stale_answer :
    (s : State) (now : ℕ) (nonce : Nonce)
    → IsValid s
    → alive now (lookup Nonce-discrete nonce s.seen) ≡ false
    → (observe s now nonce).1 ≡ accepted
stale_answer s now nonce v stale = elim (collected_cases s now nonce v) [
  | inl gone ↦ answer_of s now nonce v none gone
  | inr kept ↦
      answer_of s now nonce v (lookup Nonce-discrete nonce s.seen) kept
      ∙ ap (λ b. if b then replayed else accepted) stale
]

-- In a valid registry, once the clock has run for one lifetime, a nonce of 32 bytes is refused
-- exactly when the registry has an entry of it whose instant is less than one lifetime ago, and
-- accepted otherwise, also when the registry has no entry of it.
pub observe-alive :
    (s : State) (now : ℕ) (nonce : Nonce)
    → IsValid s
    → length nonce ≡ 32
    → nonce_ttl ≤ now
    → (observe s now nonce).1
      ≡ (if alive now (lookup Nonce-discrete nonce s.seen) then replayed else accepted)
observe-alive s now nonce v e late =
    elim (Bool-cases (alive now (lookup Nonce-discrete nonce s.seen))) [
      | inl live ↦ rw live (live_answer (lookup Nonce-discrete nonce s.seen) refl live)
      | inr stale ↦ rw stale (stale_answer s now nonce v stale)
    ]
  where
    live_answer :
        (entry : Option (ℕ × ℕ))
        → lookup Nonce-discrete nonce s.seen ≡ entry
        → alive now entry ≡ true
        → (observe s now nonce).1 ≡ replayed
    live_answer none found live = cc
    live_answer (some (ts, seq)) found live =
        answer_of s now nonce v (some (ts, seq))
          (lookup-collect s now nonce v ts seq e found (ground (arith, cutoff_late now)))
        ∙ ap (λ b. if b then replayed else accepted) live

row_lt_earlier : (a b : Row Nonce) → a.instant < b.instant → row_lt bytes_lt a b ≡ true
unfolding row_lt
row_lt_earlier a b h = ground arith

not-All :
    (q : Nonce) (r : Row Nonce) (rs : List (Row Nonce))
    → Mem r rs
    → All (λ t. q ≢ t.key) rs
    → q ≢ r.key
not-All q r [] x h = absurd (not-mem-nil x)
not-All q r (t ∷ rs) x h =
    Or.elim (Π_prop (λ _. ⊥_prop)) (mem-cons.0 x)
      (λ here e. h.0 (e ∙ ap (λ (u : Row Nonce). u.key) here)) (λ later. not-All q r rs later h.1)

-- In a valid registry whose clock has not run for one lifetime, a nonce recorded at an earlier
-- instant is accepted again.
pub observe_early :
    (s : State) (now : ℕ) (nonce : Nonce) (ts seq : ℕ)
    → IsValid s
    → now < nonce_ttl
    → lookup Nonce-discrete nonce s.seen ≡ some (ts, seq)
    → ts < now
    → (observe s now nonce).1 ≡ accepted
unfolding expired
observe_early s now nonce ts seq v early found before = answer_of s now nonce v none gone
  where
    old : Row Nonce
    old = record { instant = ts; seq = seq; key = nonce }

    in_set : Mem old s.lru
    in_set =
        (Perm.mem_iff v.paired.same).0 (Mem-row Nonce-discrete stamp nonce (ts, seq) s.seen found)

    below : Mem old (expired s now)
    below =
        (mem-rows_below Nonce-discrete bytes_lt _ old s.lru).1
          (in_set, row_lt_earlier old _ (omega (arith, cutoff_early now)))

    gone : lookup Nonce-discrete nonce (collect s now).seen ≡ none
    gone =
        unfold collect in
        gone-remove_all Nonce-discrete stamp nonce (expired s now) s.seen s.lru v.paired.distinct
          (λ h. not-All nonce old (expired s now) below h refl)

record_nonce-lookup :
    (s : State) (now : ℕ) (nonce : Nonce)
    → lookup Nonce-discrete nonce (record_nonce s now nonce).seen ≡ some (now, s.next_lru_seq)
unfolding record_nonce
record_nonce-lookup s now nonce = lookup-insert_self Nonce-discrete nonce (now, s.next_lru_seq) _

judge-records :
    (s : State) (now : ℕ) (nonce : Nonce) (entry : Option (ℕ × ℕ))
    → (judge s now nonce entry).1 ≡ accepted
    → lookup Nonce-discrete nonce (judge s now nonce entry).0.seen ≡ some (now, s.next_lru_seq)
unfolding judge
judge-records s now nonce none h = record_nonce-lookup s now nonce
judge-records s now nonce (some (ts, seq)) h = elim (Bool-cases (ltb (now - ts) nonce_ttl)) [
  | inl live ↦ absurd (ground (arith, h, live))
  | inr over ↦ rw over (
      record_nonce-lookup
        (record s {
          lru = remove_row Nonce-discrete (record { instant = ts; seq = seq; key = nonce }) s.lru;
        })
        now nonce)
]

-- After a call that accepts a nonce, the map has the nonce with the instant of the call and the
-- sequence number that was next.
pub observe_records :
    (s : State) (now : ℕ) (nonce : Nonce)
    → (observe s now nonce).1 ≡ accepted
    → lookup Nonce-discrete nonce (observe s now nonce).0.seen ≡ some (now, s.next_lru_seq)
unfolding observe collect
observe_records s now nonce h =
    judge-records (collect s now) now nonce (lookup Nonce-discrete nonce (collect s now).seen) h
