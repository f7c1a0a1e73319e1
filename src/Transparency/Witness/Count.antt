-- ===== src/Transparency/Witness/Count.antt =====
-- The count is of different trusted keys, each with a cosignature that verifies.
use ullm.Prelude.{
  ℕ, ◌≡◌, refl, ap, ◌∙◌, Bool, true, false, ◌&&◌, ◌||◌, List, [], ◌∷◌, length, bytes_eq,
  bytes_eq_sound, arith, Bool-cases, inl, inr, sym,
}
use ullm.Transparency.Sth.{Ed25519, SignedTreeHead}
use ullm.Transparency.Witness.{
  WitnessCosignature, WitnessKeyset, contains, insert_key, verify_cosignature, count_one,
  count_loop, count_valid,
}

-- No key stands twice.
abbrev pub AllDifferent : List (List ℕ) → Type 0
AllDifferent [] = Unit
AllDifferent (k ∷ ks) = (contains k ks ≡ false) × AllDifferent ks

insert_key-AllDifferent :
    (k : List ℕ) (set : List (List ℕ)) → AllDifferent set → AllDifferent (insert_key k set)
unfolding insert_key
insert_key-AllDifferent k set d = elim (Bool-cases (contains k set)) [
  | inl there ↦ rw there d
  | inr new ↦ rw new (new, d)
]

contains-insert_key :
    (k pk : List ℕ) (set : List (List ℕ))
    → contains pk (insert_key k set) ≡ (contains pk set || bytes_eq k pk)
unfolding insert_key
contains-insert_key k pk set = elim (Bool-cases (contains k set)) [
  | inl there ↦ elim (Bool-cases (bytes_eq k pk)) [
    | inl same ↦
        let pk_there : contains pk set ≡ true =
          ap (λ x. contains x set) (sym (bytes_eq_sound k pk same)) ∙ there in
        ground (arith, there, same, pk_there)
    | inr other ↦ ground (arith, there, other)
  ]
  | inr new ↦ unfold contains in ground (arith, new)
]

module _ (ed : Ed25519) (ks : WitnessKeyset) (sth : SignedTreeHead) where
  -- Whether some cosignature of the list is by the key and verifies.
  abbrev pub signed : List ℕ → List WitnessCosignature → Bool
  signed pk [] = false
  signed pk (c ∷ cosigs) =
      (bytes_eq c.witness_pk pk && verify_cosignature ed c sth) || signed pk cosigs

  count_one-AllDifferent :
      (c : WitnessCosignature) (set : List (List ℕ))
      → AllDifferent set
      → AllDifferent (count_one ed ks sth c set)
  unfolding count_one
  count_one-AllDifferent c set d = elim (Bool-cases (contains c.witness_pk ks.witnesses)) [
    | inr stranger ↦ rw stranger d
    | inl trusted ↦ elim (Bool-cases (verify_cosignature ed c sth)) [
      | inl good ↦ rw (trusted, good) (insert_key-AllDifferent c.witness_pk set d)
      | inr bad ↦ rw (trusted, bad) d
    ]
  ]

  contains-count_one :
      (pk : List ℕ) (c : WitnessCosignature) (set : List (List ℕ))
      → contains pk (count_one ed ks sth c set) ≡ (
          contains pk set
          || (contains pk ks.witnesses
              && (bytes_eq c.witness_pk pk && verify_cosignature ed c sth)))
  unfolding count_one
  contains-count_one pk c set = elim (Bool-cases (bytes_eq c.witness_pk pk)) [
    | inl same ↦
        let agree : contains c.witness_pk ks.witnesses ≡ contains pk ks.witnesses =
          ap (λ x. contains x ks.witnesses) (bytes_eq_sound c.witness_pk pk same) in
        ground (arith, same, agree, contains-insert_key c.witness_pk pk set)
    | inr other ↦ ground (arith, other, contains-insert_key c.witness_pk pk set)
  ]

  contains-count_loop :
      (pk : List ℕ) (cosigs : List WitnessCosignature) (set : List (List ℕ))
      → contains pk (count_loop ed ks sth cosigs set)
        ≡ (contains pk set || (contains pk ks.witnesses && signed pk cosigs))
  unfolding count_loop
  contains-count_loop pk [] set = ground arith
  contains-count_loop pk (c ∷ cosigs) set = ground (
    arith,
    contains-count_loop pk cosigs (count_one ed ks sth c set),
    contains-count_one pk c set,
  )

  count_loop-AllDifferent :
      (cosigs : List WitnessCosignature) (set : List (List ℕ))
      → AllDifferent set
      → AllDifferent (count_loop ed ks sth cosigs set)
  unfolding count_loop
  count_loop-AllDifferent [] set d = d
  count_loop-AllDifferent (c ∷ cosigs) set d =
      count_loop-AllDifferent cosigs (count_one ed ks sth c set) (count_one-AllDifferent c set d)

  -- The count of valid cosignatures is the size of a list of keys without repetition, which has
  -- exactly the trusted keys with a cosignature in the list that verifies.
  pub count_valid-Counts :
      (cosigs : List WitnessCosignature)
      → (set : List (List ℕ)) × (count_valid ed ks sth cosigs ≡ length set)
        × AllDifferent set
        × ((pk : List ℕ) → contains pk set ≡ (contains pk ks.witnesses && signed pk cosigs))
  unfolding count_valid contains
  count_valid-Counts cosigs = (
    count_loop ed ks sth cosigs [],
    refl,
    count_loop-AllDifferent cosigs [] tt,
    λ pk. contains-count_loop pk cosigs [],
  )
