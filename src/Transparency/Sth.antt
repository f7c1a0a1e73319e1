-- ===== src/Transparency/Sth.antt =====
-- crates/ullm-transparency/src/sth.rs: the tree head that the logger signs.
use ullm.Prelude.{ℕ, ◌≡◌, refl, Bool, true, false, not, if◌then◌else◌, List, [], ◌∷◌}
use ullm.Transparency.Entry.{Crates, string, number}

-- Ed25519 of `ed25519_dalek` on bytes: a signature verifies under the key of its signer, and the
-- bytes of a signer's key are a key.
pub record Ed25519 : Type 0 where
  pub verifying_key : List ℕ → List ℕ
  pub is_key : List ℕ → Bool
  pub sign : List ℕ → List ℕ → List ℕ
  pub verify : List ℕ → List ℕ → List ℕ → Bool
  pub verifying_key-is_key : (key : List ℕ) → is_key (verifying_key key) ≡ true
  pub verify-sign : (key m : List ℕ) → verify (verifying_key key) m (sign key m) ≡ true

pub record TreeHead : Type 0 where
  pub size : ℕ
  pub root_hex : List ℕ
  pub issued_at_unix : ℕ
  pub log_id : List ℕ

pub record SignedTreeHead : Type 0 where
  pub head : TreeHead
  pub logger_pk : List ℕ
  pub signature : List ℕ

abbrev issued_at_unix_key : List ℕ
issued_at_unix_key =
    105 ∷ 115 ∷ 115 ∷ 117 ∷ 101 ∷ 100 ∷ 95 ∷ 97 ∷ 116 ∷ 95 ∷ 117 ∷ 110 ∷ 105 ∷ 120 ∷ []

abbrev log_id_key : List ℕ
log_id_key = 108 ∷ 111 ∷ 103 ∷ 95 ∷ 105 ∷ 100 ∷ []

abbrev root_hex_key : List ℕ
root_hex_key = 114 ∷ 111 ∷ 111 ∷ 116 ∷ 95 ∷ 104 ∷ 101 ∷ 120 ∷ []

abbrev size_key : List ℕ
size_key = 115 ∷ 105 ∷ 122 ∷ 101 ∷ []

module _ (crates : Crates) where
  unfoldable pub head_bytes : TreeHead → List ℕ
  head_bytes h = crates.to_vec (
      (issued_at_unix_key, number h.issued_at_unix)
      ∷ (log_id_key, string h.log_id)
      ∷ (root_hex_key, string h.root_hex)
      ∷ (size_key, number h.size)
      ∷ [])

  module _ (ed : Ed25519) where
    unfoldable pub sign_head : TreeHead → List ℕ → SignedTreeHead
    sign_head head key = record {
      head = head;
      logger_pk = ed.verifying_key key;
      signature = ed.sign key (head_bytes head);
    }

    unfoldable pub verify_head : SignedTreeHead → Bool
    verify_head sth =
        if not (ed.is_key sth.logger_pk)
        then false
        else ed.verify sth.logger_pk (head_bytes sth.head) sth.signature

    pub verify_head-sign_head :
        (head : TreeHead) (key : List ℕ) → verify_head (sign_head head key) ≡ true
    unfolding verify_head sign_head
    verify_head-sign_head head key =
        rw (ed.verifying_key-is_key key, ed.verify-sign key (head_bytes head)) refl
