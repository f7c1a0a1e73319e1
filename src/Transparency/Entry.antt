-- ===== src/Transparency/Entry.antt =====
-- `LogEntry` of crates/ullm-transparency/src/log.rs, and the crates it is hashed and printed with.
use ullm.Prelude.{ℕ, ◌≡◌, List, [], ◌∷◌, Option, some, length, All}
use ullm.Core.Bytes.{IsByte}

-- The values of `serde_json` that occur.
pub data Value : Type 0 where
  string : List ℕ → Value
  number : ℕ → Value

-- SHA-256 of `sha2` gives 32 bytes; `hex` reads back what it prints; `serde_json::to_vec` prints a
-- map in the order of its keys. A text is the list of its bytes.
pub record Crates : Type 0 where
  pub digest : List ℕ → List ℕ
  pub hex_encode : List ℕ → List ℕ
  pub hex_decode : List ℕ → Option (List ℕ)
  pub to_vec : List (List ℕ × Value) → List ℕ
  pub length-digest : (m : List ℕ) → length (digest m) ≡ 32
  pub digest-IsByte : (m : List ℕ) → All IsByte (digest m)
  pub decode-encode : (m : List ℕ) → All IsByte m → hex_decode (hex_encode m) ≡ some m

pub record LogEntry : Type 0 where
  pub seq : ℕ
  pub id_pk_hex : List ℕ
  pub evidence_sha256_hex : List ℕ
  pub observed_at_unix : ℕ

abbrev evidence_sha256_hex_key : List ℕ
evidence_sha256_hex_key =
    101 ∷ 118 ∷ 105 ∷ 100 ∷ 101 ∷ 110 ∷ 99 ∷ 101 ∷ 95 ∷ 115 ∷ 104 ∷ 97 ∷ 50 ∷ 53 ∷ 54 ∷ 95 ∷ 104
    ∷ 101 ∷ 120 ∷ []

abbrev id_pk_hex_key : List ℕ
id_pk_hex_key = 105 ∷ 100 ∷ 95 ∷ 112 ∷ 107 ∷ 95 ∷ 104 ∷ 101 ∷ 120 ∷ []

abbrev observed_at_unix_key : List ℕ
observed_at_unix_key =
    111 ∷ 98 ∷ 115 ∷ 101 ∷ 114 ∷ 118 ∷ 101 ∷ 100 ∷ 95 ∷ 97 ∷ 116 ∷ 95 ∷ 117 ∷ 110 ∷ 105 ∷ 120 ∷ []

abbrev seq_key : List ℕ
seq_key = 115 ∷ 101 ∷ 113 ∷ []

module _ (crates : Crates) where
  unfoldable pub canonical_bytes : LogEntry → List ℕ
  canonical_bytes e = crates.to_vec (
      (evidence_sha256_hex_key, string e.evidence_sha256_hex)
      ∷ (id_pk_hex_key, string e.id_pk_hex)
      ∷ (observed_at_unix_key, number e.observed_at_unix)
      ∷ (seq_key, number e.seq)
      ∷ [])

  unfoldable pub from_evidence : ℕ → List ℕ → List ℕ → ℕ → LogEntry
  from_evidence seq id_pk evidence_bytes observed_at_unix = record {
    seq = seq;
    id_pk_hex = crates.hex_encode id_pk;
    evidence_sha256_hex = crates.hex_encode (crates.digest evidence_bytes);
    observed_at_unix = observed_at_unix;
  }
