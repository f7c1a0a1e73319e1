-- ===== src/Transparency/Witness.antt =====
-- crates/ullm-transparency/src/witness.rs: cosignatures of witnesses over a tree head.
pub mod Count
use ullm.Prelude.{
  ℕ, Bool, true, false, not, ◌&&◌, ◌||◌, leb, if◌then◌else◌, List, [], ◌∷◌, length, bytes_eq,
}
use ullm.Transparency.Sth.{Ed25519, SignedTreeHead}

pub record WitnessCosignature : Type 0 where
  pub witness_pk : List ℕ
  pub signature : List ℕ

pub record WitnessKeyset : Type 0 where
  pub witnesses : List (List ℕ)
  pub threshold : ℕ

-- `iter().any(|w| w == key)`, and `HashSet::contains`
unfoldable pub contains : List ℕ → List (List ℕ) → Bool
contains key [] = false
contains key (w ∷ ws) = bytes_eq w key || contains key ws

-- `HashSet::insert`
unfoldable pub insert_key : List ℕ → List (List ℕ) → List (List ℕ)
unfolding contains
insert_key key set = if contains key set then set else key ∷ set

-- `WitnessCosignature::message`
unfoldable pub message : SignedTreeHead → List ℕ
message sth = sth.signature

module _ (ed : Ed25519) where
  unfoldable pub cosign : SignedTreeHead → List ℕ → WitnessCosignature
  unfolding message
  cosign sth key = record {
    witness_pk = ed.verifying_key key;
    signature = ed.sign key (message sth);
  }

  unfoldable pub verify_cosignature : WitnessCosignature → SignedTreeHead → Bool
  unfolding message
  verify_cosignature c sth =
      if not (ed.is_key c.witness_pk)
      then false
      else ed.verify c.witness_pk (message sth) c.signature

  -- One round of the loop of `count_valid`.
  unfoldable pub count_one :
      WitnessKeyset → SignedTreeHead → WitnessCosignature → List (List ℕ) → List (List ℕ)
  unfolding insert_key verify_cosignature
  count_one ks sth c counted =
      if not (contains c.witness_pk ks.witnesses)
      then counted
      else if verify_cosignature c sth
      then insert_key c.witness_pk counted
      else counted

  -- The set that the loop ends with.
  unfoldable pub count_loop :
      WitnessKeyset → SignedTreeHead → List WitnessCosignature → List (List ℕ) → List (List ℕ)
  unfolding count_one
  count_loop ks sth [] counted = counted
  count_loop ks sth (c ∷ cosigs) counted = count_loop ks sth cosigs (count_one ks sth c counted)

  unfoldable pub count_valid : WitnessKeyset → SignedTreeHead → List WitnessCosignature → ℕ
  unfolding count_loop
  count_valid ks sth cosigs = length (count_loop ks sth cosigs [])

  unfoldable pub satisfies : WitnessKeyset → SignedTreeHead → List WitnessCosignature → Bool
  unfolding count_valid
  satisfies ks sth cosigs = leb ks.threshold (count_valid ks sth cosigs)
