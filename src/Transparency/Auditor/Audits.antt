-- ===== src/Transparency/Auditor/Audits.antt =====
-- What an audit that passes has shown, and that an honest logger's audit passes.
use ullm.Prelude.{
  ℕ, ◌≤◌, ◌≡◌, inl, inr, refl, sym, ap, ◌∙◌, true, false, ◌&&◌, ◌==◌, ltb, List, Option, none, some,
  arith, bytes_eq_sound, bytes_eq_refl, Bool-cases, Option-cases, length, get_elem?,
}
use mathlib.Core.Path.{subst}
use ullm.Core.{ok}
use ullm.Transparency.Entry.{Crates, LogEntry}
use ullm.Transparency.Merkle.{merkle_root, leaf_hash}
use ullm.Transparency.Path.{decode32, fold_path}
use ullm.Transparency.Path.Walk.{decode32-encode}
use ullm.Transparency.Inclusion.{InclusionProof, build, verify}
use ullm.Transparency.Inclusion.Complete.{build-verify, merkle_root-IsHash}
use ullm.Transparency.Inclusion.Binding.{verify-inverse}
use ullm.Transparency.Sth.{
  Ed25519, TreeHead, SignedTreeHead, sign_head, head_bytes, verify_head, verify_head-sign_head,
}
use ullm.Transparency.Witness.{WitnessCosignature, WitnessKeyset, contains, count_valid}
use ullm.Transparency.Witness.Count
use ullm.Transparency.Witness.Count.{AllDifferent, count_valid-Counts}
use ullm.Transparency.Auditor.Passes.{audit-Passes, Passes-audit}
use ullm.Transparency.Auditor.{passed, wrong_log, check_witnesses, verify_inclusion_against_head}

module _ (crates : Crates) (ed : Ed25519) where
  -- The head is of the log that was asked for.
  abbrev pub Named : Option (List ℕ) → SignedTreeHead → Type 0
  Named none sth = Unit {0}
  Named (some want) sth = sth.head.log_id ≡ want

  -- As many different keys of the keyset as its threshold, each with a cosignature of the list that
  -- verifies.
  abbrev pub Witnessed : Option (WitnessKeyset × List WitnessCosignature) → SignedTreeHead → Type 0
  Witnessed none sth = Unit {0}
  Witnessed (some (keyset, cosigs)) sth =
      (set : List (List ℕ)) × AllDifferent set
      × (keyset.threshold ≤ length set)
      × ((pk : List ℕ)
          → contains pk set
            ≡ (contains pk keyset.witnesses && Count.signed ed keyset sth pk cosigs))

  -- What a passed audit has shown of the head, the proof and the entry.
  pub record Shown (sth : SignedTreeHead) (proof : InclusionProof) (e : LogEntry)
      (cosigs : Option (WitnessKeyset × List WitnessCosignature)) (log_id : Option (List ℕ))
      : Type 0 where
    pub is_key : ed.is_key sth.logger_pk ≡ true
    pub signed : ed.verify sth.logger_pk (head_bytes crates sth.head) sth.signature ≡ true
    pub named : Named log_id sth
    pub sized : proof.tree_size ≡ sth.head.size
    pub root : List ℕ
    pub decoded : crates.hex_decode sth.head.root_hex ≡ some root
    pub root_32 : length root ≡ 32
    pub paired : length proof.siblings_hex ≡ length proof.directions
    pub folds :
        fold_path crates (leaf_hash crates e) proof.siblings_hex proof.directions ≡ some root
    pub witnessed : Witnessed cosigs sth

  wrong_log-Named :
      (log_id : Option (List ℕ)) (sth : SignedTreeHead)
      → wrong_log log_id sth.head.log_id ≡ false
      → Named log_id sth
  unfolding wrong_log
  wrong_log-Named none sth h = tt
  wrong_log-Named (some want) sth h = bytes_eq_sound sth.head.log_id want (ground (arith, h))

  check_witnesses-Witnessed :
      (cosigs : Option (WitnessKeyset × List WitnessCosignature)) (sth : SignedTreeHead)
      → check_witnesses crates ed sth cosigs ≡ passed
      → Witnessed cosigs sth
  unfolding check_witnesses
  check_witnesses-Witnessed none sth h = tt
  check_witnesses-Witnessed (some (keyset, cosigs)) sth h =
      let (set, counted, different, members) = count_valid-Counts ed keyset sth cosigs in
      let enough : ltb (count_valid ed keyset sth cosigs) keyset.threshold ≡ false =
        ground (arith, h) in
      (set, different, ground (arith, enough, counted), members)

  decode32-inverse :
      (s root : List ℕ)
      → decode32 crates s ≡ some root
      → (crates.hex_decode s ≡ some root) × (length root ≡ 32)
  unfolding decode32
  decode32-inverse s root h = elim (Option-cases (crates.hex_decode s)) [
    | inl none_read ↦ absurd (ground (arith, h, none_read))
    | inr (bytes, read) ↦ elim (Bool-cases (length bytes == 32)) [
      | inr other ↦ absurd (ground (arith, h, read, other))
      | inl size ↦
          let same : bytes ≡ root = ground (arith, h, read, size) in
          (read ∙ ap some same, ap length (sym same) ∙ ground (arith, size))
    ]
  ]

  verify_head-inverse :
      (sth : SignedTreeHead)
      → verify_head crates ed sth ≡ true
      → (ed.is_key sth.logger_pk ≡ true)
        × (ed.verify sth.logger_pk (head_bytes crates sth.head) sth.signature ≡ true)
  unfolding verify_head
  verify_head-inverse sth h =
      let key : ed.is_key sth.logger_pk ≡ true = ground (arith, h) in (key, ground (arith, h, key))

  -- An audit that passes has shown that the head is signed under the logger's key, has the name of
  -- the log that was asked for, if one was, and the size of the proof's tree; that its root is 32
  -- bytes in hex, to which the path of the proof leads from the hash of exactly this entry; and,
  -- where a keyset is given, that as many different keys of the keyset as its threshold have a
  -- cosignature that verifies.
  pub audit-Shown :
      (sth : SignedTreeHead) (proof : InclusionProof) (e : LogEntry)
      (cosigs : Option (WitnessKeyset × List WitnessCosignature)) (log_id : Option (List ℕ))
      → verify_inclusion_against_head crates ed sth proof e cosigs log_id ≡ passed
      → Shown sth proof e cosigs log_id
  audit-Shown sth proof e cosigs log_id h =
      let p = audit-Passes crates ed sth proof e cosigs log_id h in
      let (is_key, signed) = verify_head-inverse sth p.signed in
      let (decoded, root_32) = decode32-inverse sth.head.root_hex p.root p.decoded in
      let (paired, folds) = verify-inverse crates proof p.root e p.included in
      record {
        is_key = is_key;
        signed = signed;
        named = wrong_log-Named log_id sth p.named;
        sized = p.sized;
        root = p.root;
        decoded = decoded;
        root_32 = root_32;
        paired = paired;
        folds = folds;
        witnessed = check_witnesses-Witnessed cosigs sth p.witnessed;
      }

  -- The head that a logger with this key signs of a log.
  abbrev pub head_of : List LogEntry → List ℕ → ℕ → List ℕ → TreeHead
  head_of entries root issued_at_unix log_id = record {
    size = length entries;
    root_hex = crates.hex_encode root;
    issued_at_unix = issued_at_unix;
    log_id = log_id;
  }

  -- The proof that build returns for an entry of a log passes the audit against the signed head of
  -- the log's size and root, for an auditor who expects this log's name, with cosignatures that
  -- the witness test accepts.
  pub audit-honest :
      (entries : List LogEntry) (seq : ℕ) (e : LogEntry) (key log_id : List ℕ) (issued_at_unix : ℕ)
      (proof : InclusionProof) (root : List ℕ)
      (cosigs : Option (WitnessKeyset × List WitnessCosignature))
      → get_elem? entries seq ≡ some e
      → build crates entries seq ≡ ok (some proof)
      → merkle_root crates entries ≡ ok root
      → check_witnesses crates ed
          (sign_head crates ed (head_of entries root issued_at_unix log_id) key)
          cosigs
        ≡ passed
      → verify_inclusion_against_head crates ed
          (sign_head crates ed (head_of entries root issued_at_unix log_id) key)
          proof
          e
          cosigs
          (some log_id)
        ≡ passed
  audit-honest entries seq e key log_id issued_at_unix proof root cosigs h built rooted enough =
      let (proof', root', built', rooted', sized, verified) = build-verify crates entries seq e h in
      let same_proof : proof' ≡ proof = proof_inverse (sym built' ∙ built) in
      let same_root : root' ≡ root = root_inverse (sym rooted' ∙ rooted) in
      let verified' : verify crates proof root e ≡ true =
        subst (λ p. verify crates p root e ≡ true) same_proof
          (subst (λ r. verify crates proof' r e ≡ true) same_root verified) in
      Passes-audit crates ed (sign_head crates ed (head_of entries root issued_at_unix log_id) key)
        proof e cosigs (some log_id)
        (unfold sign_head in
          record {
            signed =
                verify_head-sign_head crates ed (head_of entries root issued_at_unix log_id) key;
            named = not_wrong;
            sized = ap (λ p. p.tree_size) (sym same_proof) ∙ sized;
            root = root;
            decoded = decode32-encode crates root (merkle_root-IsHash crates entries root rooted);
            included = verified';
            witnessed = enough;
          })
    where
      proof_inverse : {u v : InclusionProof} → ok (some u) ≡ ok (some v) → u ≡ v
      proof_inverse q = cc

      root_inverse : {u v : List ℕ} → ok u ≡ ok v → u ≡ v
      root_inverse q = cc

      not_wrong : wrong_log (some log_id) log_id ≡ false
      not_wrong = unfold wrong_log in rw (bytes_eq_refl log_id) refl
