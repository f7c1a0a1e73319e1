-- ===== src/Transparency/Tests.antt =====
-- The theorems on the transparency log at a log of three entries, with small stand-ins for the
-- crates: a digest that sums, texts printed as they are, signatures that repeat key and message.
use ullm.Prelude.{
  ℕ, zero, suc, ◌+◌, ◌%◌, ◌≡◌, ◌⊎◌, refl, true, ◌&&◌, List, [], ◌∷◌, ◌++◌, Option, none, some,
  length, replicate, arith, All, bytes_eq, bytes_eq_refl,
}
use ullm.Core.{ok}
use ullm.Core.Bytes.{IsByte}
use ullm.Transparency.Entry.{
  Crates, Value, string, number, LogEntry, canonical_bytes, from_evidence,
}
use ullm.Transparency.Log.{FsyncPolicy, State, append}
use ullm.Transparency.Log.Durable.{IsDurable, success, append-IsDurable}
use ullm.Transparency.Merkle.{merkle_root}
use ullm.Transparency.Path.Binding.{Clash}
use ullm.Transparency.Inclusion.{InclusionProof, build, verify}
use ullm.Transparency.Inclusion.Complete.{build-verify}
use ullm.Transparency.Inclusion.Binding.{texts, verify-Binding}
use ullm.Transparency.Sth.{Ed25519, SignedTreeHead, sign_head}
use ullm.Transparency.Witness.{WitnessCosignature, WitnessKeyset, contains, cosign, count_valid}
use ullm.Transparency.Witness.Count.{AllDifferent, signed, count_valid-Counts}
use ullm.Transparency.Auditor.{passed, check_witnesses, verify_inclusion_against_head}
use ullm.Transparency.Auditor.Audits.{Shown, head_of, audit-Shown, audit-honest}

abbrev sum : List ℕ → ℕ
sum [] = 0
sum (x ∷ xs) = x + sum xs

abbrev print : List (List ℕ × Value) → List ℕ
print [] = []
print ((k, string s) ∷ fields) = k ++ (s ++ print fields)
print ((k, number n) ∷ fields) = k ++ (n ∷ print fields)

abbrev pub crates : Crates
crates = record {
  digest = λ m. (sum m % 256) ∷ replicate 31 0;
  hex_encode = λ m. m;
  hex_decode = λ m. some m;
  to_vec = print;
  length-digest = λ m. refl;
  digest-IsByte = λ m. (omega arith, zeros_IsByte 31);
  decode-encode = λ m bytes. refl;
}
  where
    zeros_IsByte : (n : ℕ) → All IsByte (replicate n 0)
    zeros_IsByte zero = tt
    zeros_IsByte (suc n) = (omega arith, zeros_IsByte n)

abbrev ed : Ed25519
ed = record {
  verifying_key = λ k. k;
  is_key = λ k. true;
  sign = λ k m. k ++ m;
  verify = λ k m s. bytes_eq s (k ++ m);
  verifying_key-is_key = λ k. refl;
  verify-sign = λ k m. bytes_eq_refl (k ++ m);
}

abbrev entry_of : ℕ → LogEntry
entry_of n = record {
  seq = n;
  id_pk_hex = (10 + n) ∷ [];
  evidence_sha256_hex = (20 + n) ∷ [];
  observed_at_unix = 100 + n;
}

abbrev entries : List LogEntry
entries = entry_of 0 ∷ entry_of 1 ∷ entry_of 2 ∷ []

build-verify_example :
    (proof : InclusionProof) × (root : List ℕ) × (build crates entries 2 ≡ ok (some proof))
    × (merkle_root crates entries ≡ ok root)
    × (proof.tree_size ≡ length entries)
    × (verify crates proof root (entry_of 2) ≡ true)
build-verify_example = build-verify crates entries 2 (entry_of 2) refl

abbrev key : List ℕ
key = 1 ∷ 2 ∷ 3 ∷ []

abbrev log_id : List ℕ
log_id = 7 ∷ []

-- The proof of the last entry and the root, by the theorem.
abbrev last_proof : InclusionProof
last_proof = (build-verify crates entries 2 (entry_of 2) refl).0

abbrev root : List ℕ
root = (build-verify crates entries 2 (entry_of 2) refl).1

last_built : build crates entries 2 ≡ ok (some last_proof)
last_built = (build-verify crates entries 2 (entry_of 2) refl).2

rooted : merkle_root crates entries ≡ ok root
rooted = (build-verify crates entries 2 (entry_of 2) refl).3

last_verified : verify crates last_proof root (entry_of 2) ≡ true
last_verified = (build-verify crates entries 2 (entry_of 2) refl).5

verify-Binding_example :
    (canonical_bytes crates (entry_of 2) ≡ canonical_bytes crates (entry_of 2))
    ⊎ Clash crates (texts crates last_proof (entry_of 2)) (texts crates last_proof (entry_of 2))
verify-Binding_example =
    verify-Binding crates last_proof last_proof root (entry_of 2) (entry_of 2) refl last_verified
      last_verified

abbrev sth : SignedTreeHead
sth = sign_head crates ed (head_of crates ed entries root 1000 log_id) key

-- One witness twice, and a stranger.
abbrev keyset : WitnessKeyset
keyset = record { witnesses = (5 ∷ []) ∷ (6 ∷ []) ∷ []; threshold = 1 }

abbrev cosigs : List WitnessCosignature
cosigs = cosign ed sth (5 ∷ []) ∷ cosign ed sth (5 ∷ []) ∷ cosign ed sth (9 ∷ []) ∷ []

count_valid-Counts_example :
    (set : List (List ℕ)) × (count_valid ed keyset sth cosigs ≡ length set)
    × AllDifferent set
    × ((pk : List ℕ)
        → contains pk set ≡ (contains pk keyset.witnesses && signed ed keyset sth pk cosigs))
count_valid-Counts_example = count_valid-Counts ed keyset sth cosigs

no_witnesses : check_witnesses crates ed sth none ≡ passed
unfolding check_witnesses
no_witnesses = refl

audit-honest_example :
    verify_inclusion_against_head crates ed sth last_proof (entry_of 2) none (some log_id) ≡ passed
audit-honest_example =
    audit-honest crates ed entries 2 (entry_of 2) key log_id 1000 last_proof root none refl
      last_built rooted no_witnesses

audited :
    verify_inclusion_against_head crates ed sth last_proof (entry_of 2) none (some log_id) ≡ passed
audited =
    audit-honest crates ed entries 2 (entry_of 2) key log_id 1000 last_proof root none refl
      last_built rooted no_witnesses

audit-Shown_example : Shown crates ed sth last_proof (entry_of 2) none (some log_id)
audit-Shown_example = audit-Shown crates ed sth last_proof (entry_of 2) none (some log_id) audited

-- A log that has just been opened on an empty file and syncs every second append.
abbrev opened : State
opened = record {
  entries = [];
  file = some (record { written = []; durable = [] });
  appends_since_sync = 0;
  fsync_policy = FsyncPolicy.periodic 2;
}

abbrev to_string : LogEntry → Option (List ℕ)
to_string e = some (e.seq ∷ e.observed_at_unix ∷ [])

opened-IsDurable : IsDurable crates to_string opened
opened-IsDurable = record {
  policy = omega arith;
  file = record { written = []; durable = [] };
  backed = refl;
  on_disk = refl;
  synced = [];
  recent = [];
  parts = refl;
  safe = refl;
  counted = refl;
  few = omega arith;
}

append-IsDurable_example :
    IsDurable crates to_string (append crates to_string opened key log_id 100 success).0
    × ((append crates to_string opened key log_id 100 success).1 ≡ ok (length opened.entries))
    × ((append crates to_string opened key log_id 100 success).0.entries
        ≡ opened.entries ++ (from_evidence crates (length opened.entries) key log_id 100 ∷ []))
append-IsDurable_example =
    append-IsDurable crates to_string opened key log_id 100 (0 ∷ 100 ∷ []) opened-IsDurable made
  where
    made :
        to_string (from_evidence crates (length opened.entries) key log_id 100)
        ≡ some (0 ∷ 100 ∷ [])
    made = unfold from_evidence in refl
