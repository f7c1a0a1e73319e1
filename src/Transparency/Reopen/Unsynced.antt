-- ===== src/Transparency/Reopen/Unsynced.antt =====
-- After an append whose sync failed, the next append writes the same number again, and the log's
-- file is not reopened.
use mathlib.Core.Path.{subst}
use ullm.Prelude.{ℕ, ◌≡◌, refl, sym, ap, ◌∙◌, List, [], ◌∷◌, ◌++◌, Option, some, length, All}
use ullm.Core.{Error, ok, err}
use ullm.Transparency.Entry.{Crates, LogEntry, from_evidence}
use ullm.Transparency.Log.{
  State, File, FsyncPolicy, append, append_entry, sync_data, saturating_next,
}
use ullm.Transparency.Log.Durable.{success, sync_fails}
use ullm.Transparency.Reopen.{Parsers, open_persistent}
use ullm.Transparency.Reopen.Recovers.{IsLine, Numbered, file_of, entries_of}
use ullm.Transparency.Reopen.Refuses.{open_persistent-twice}

module _ (crates : Crates) (to_string : LogEntry → Option (List ℕ)) where
  -- What the failed append leaves in memory.
  abbrev unsynced : State → File → List ℕ → State
  unsynced s f line = record s {
    file = some (record f { written = (f.written ++ line) ++ (10 ∷ []) });
    appends_since_sync = saturating_next s.appends_since_sync;
  }

  append_entry-unsynced :
      (s : State) (e : LogEntry) (f : File) (line : List ℕ)
      → s.file ≡ some f
      → s.fsync_policy ≡ FsyncPolicy.always
      → to_string e ≡ some line
      → append_entry crates to_string s e s.file sync_fails
        ≡ (unsynced s f line, err Error.transport)
  unfolding append_entry
  append_entry-unsynced s e f line backed policy t = rw (backed, t, policy) refl

  append_entry-synced :
      (s : State) (e : LogEntry) (f : File) (line : List ℕ)
      → s.file ≡ some f
      → s.fsync_policy ≡ FsyncPolicy.always
      → to_string e ≡ some line
      → ((append_entry crates to_string s e s.file success).1 ≡ ok (length s.entries))
        × (f' : File) × ((append_entry crates to_string s e s.file success).0.file ≡ some f')
        × (f'.written ≡ (f.written ++ line) ++ (10 ∷ []))
  unfolding append_entry sync_data
  append_entry-synced s e f line backed policy t =
      rw (backed, t, policy)
        (
          refl,
          record {
            written = (f.written ++ line) ++ (10 ∷ []);
            durable = (f.written ++ line) ++ (10 ∷ []);
          },
          refl,
          refl,
        )

  -- The next append after a sync that failed, with the file it leaves.
  abbrev pub Twice : Parsers → State → State → List ℕ → List ℕ → ℕ → Type 0
  Twice parsers s s' id_pk evidence observed_at_unix =
      ((append crates to_string s' id_pk evidence observed_at_unix success).1
        ≡ ok (length s.entries))
      × (f' : File) × ((append crates to_string s' id_pk evidence observed_at_unix success).0.file
          ≡ some f')
      × (open_persistent parsers (some f') ≡ some (err Error.other))

  module _ (parsers : Parsers) (s : State) (rows : List (LogEntry × List ℕ)) (f : File) where
    -- A log under the policy of a sync to every append has the entries of its file's lines,
    -- numbered from 0. When the sync of an append fails after both writes, the call fails; when the
    -- next append succeeds, it answers with the number that the failed one had written, and the
    -- file that it leaves is refused when the log is reopened.
    pub append_unsynced-Twice :
        (id_pk evidence : List ℕ) (observed_at_unix : ℕ) (line : List ℕ) (id_pk' evidence' : List ℕ)
        (observed_at_unix' : ℕ) (line' : List ℕ)
        → s.file ≡ some f
        → s.fsync_policy ≡ FsyncPolicy.always
        → entries_of rows ≡ s.entries
        → f.written ≡ file_of rows []
        → All (IsLine parsers) rows
        → Numbered 0 rows
        → to_string (from_evidence crates (length s.entries) id_pk evidence observed_at_unix)
          ≡ some line
        → IsLine parsers
            (from_evidence crates (length s.entries) id_pk evidence observed_at_unix, line)
        → to_string (from_evidence crates (length s.entries) id_pk' evidence' observed_at_unix')
          ≡ some line'
        → IsLine parsers
            (from_evidence crates (length s.entries) id_pk' evidence' observed_at_unix', line')
        → ((append crates to_string s id_pk evidence observed_at_unix sync_fails).1
            ≡ err Error.transport)
          × Twice parsers s
              (append crates to_string s id_pk evidence observed_at_unix sync_fails).0
              id_pk'
              evidence'
              observed_at_unix'
    unfolding append
    append_unsynced-Twice id_pk evidence observed_at_unix line id_pk' evidence' observed_at_unix'
          line' backed policy same_entries on_disk is numbered t is_line t' is_line' =
        let n = length s.entries in
        let e = from_evidence crates n id_pk evidence observed_at_unix in
        let e' = from_evidence crates n id_pk' evidence' observed_at_unix' in
        let failed = append_entry-unsynced s e f line backed policy t in
        let s' = unsynced s f line in
        let f1 : File = record f { written = (f.written ++ line) ++ (10 ∷ []) } in
        let (answered, f', left, written) = append_entry-synced s' e' f1 line' refl policy t' in
        let number : n ≡ length (entries_of rows) = ap length (sym same_entries) in
        let whole : f'.written ≡ (((file_of rows [] ++ line) ++ (10 ∷ [])) ++ line') ++ (10 ∷ []) =
          written ∙ ap (λ w. (((w ++ line) ++ (10 ∷ [])) ++ line') ++ (10 ∷ [])) on_disk in
        let refused =
          open_persistent-twice parsers rows e e' line line' f' is numbered is_line is_line'
            (unfold from_evidence in number) (unfold from_evidence in number) whole in
        (
          ap (λ r. r.1) failed,
          subst (λ x. Twice parsers s x id_pk' evidence' observed_at_unix')
              (sym (ap (λ r. r.0) failed)) (answered, f', left, refused),
        )
