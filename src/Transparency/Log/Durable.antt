-- ===== src/Transparency/Log/Durable.antt =====
-- What of the log is in its file, and what of the file survives a crash.
use ullm.Prelude.{
  ℕ, ◌+◌, ◌-◌, ◌^◌, ◌≤◌, ◌<◌, ◌≡◌, refl, sym, ap, ◌∙◌, true, false, List, [], ◌∷◌, ◌++◌, Option,
  none, some, length, length-append, arith, Bool-cases, inl, inr,
}
use mathlib.Core.List.{append_assoc, append-nil}
use ullm.Prelude.Options.{◌>>=◌}
use ullm.Core.{ok}
use ullm.Transparency.Entry.{Crates, LogEntry, from_evidence}
use ullm.Transparency.Log.{
  FsyncPolicy, File, State, Environment, sync_data, saturating_next, should_sync, commit,
  append_entry, append,
}

-- The entries that a policy may leave without a sync.
abbrev pub max_loss : FsyncPolicy → ℕ
max_loss FsyncPolicy.always = 0
max_loss (FsyncPolicy.periodic every_n) = every_n - 1

abbrev pub IsPolicy : FsyncPolicy → Type 0
IsPolicy FsyncPolicy.always = Unit
IsPolicy (FsyncPolicy.periodic every_n) = every_n < 2 ^ 32

abbrev pub sync_fails : Environment
sync_fails = record { line = none; newline = none; sync = false }

abbrev pub success : Environment
success = record { line = none; newline = none; sync = true }

-- An append that does not sync leaves no more than the policy allows.
not_yet :
    (p : FsyncPolicy) (n : ℕ)
    → IsPolicy p
    → n ≤ max_loss p
    → should_sync p (saturating_next n) ≡ false
    → (saturating_next n ≡ n + 1) × (n + 1 ≤ max_loss p)
unfolding should_sync saturating_next
not_yet FsyncPolicy.always n u h e = cc
not_yet (FsyncPolicy.periodic every_n) n u h e = (ground arith, ground arith)

module _ (crates : Crates) (to_string : LogEntry → Option (List ℕ)) where
  -- The file of a list of entries: each one printed on a line.
  abbrev pub lines : List LogEntry → Option (List ℕ)
  lines [] = some []
  lines (e ∷ es) = to_string e >>= λ line. lines es >>= λ rest. some (line ++ (10 ∷ rest))

  rotate :
      (l rest line : List ℕ)
      → l ++ (10 ∷ ((rest ++ line) ++ (10 ∷ []))) ≡ ((l ++ (10 ∷ rest)) ++ line) ++ (10 ∷ [])
  rotate [] rest line = refl
  rotate (b ∷ l) rest line = ap (◌∷◌ b) (rotate l rest line)

  snoc_step :
      (first old new : Option (List ℕ)) (bs line : List ℕ)
      → ((rest : List ℕ) → old ≡ some rest → new ≡ some ((rest ++ line) ++ (10 ∷ [])))
      → (first >>= λ l. old >>= λ rest. some (l ++ (10 ∷ rest))) ≡ some bs
      → (first >>= λ l. new >>= λ rest. some (l ++ (10 ∷ rest))) ≡ some ((bs ++ line) ++ (10 ∷ []))
  snoc_step none old new bs line grow h = cc
  snoc_step (some l) none new bs line grow h = cc
  snoc_step (some l) (some rest) new bs line grow h =
      rw (grow rest refl)
        (ap some (rotate l rest line) ∙ ap (λ b. some ((b ++ line) ++ (10 ∷ []))) (inverse h))
    where
      inverse : {u v : List ℕ} → some u ≡ some v → u ≡ v
      inverse q = cc

  lines-snoc :
      (es : List LogEntry) (e : LogEntry) (bs line : List ℕ)
      → lines es ≡ some bs
      → to_string e ≡ some line
      → lines (es ++ (e ∷ [])) ≡ some ((bs ++ line) ++ (10 ∷ []))
  lines-snoc [] e bs line h t = rw t (ap some (rotate_nil bs (inverse h)))
    where
      inverse : {u v : List ℕ} → some u ≡ some v → u ≡ v
      inverse q = cc

      rotate_nil : (b : List ℕ) → [] ≡ b → line ++ (10 ∷ []) ≡ (b ++ line) ++ (10 ∷ [])
      rotate_nil b q = ap (λ c. (c ++ line) ++ (10 ∷ [])) q
  lines-snoc (x ∷ es) e bs line h t =
      snoc_step (to_string x) (lines es) (lines (es ++ (e ∷ []))) bs line
        (λ rest g. lines-snoc es e rest line g t) h

  -- The file has the lines of all entries, and durably those of all but the last few, as many as
  -- are counted and no more than the policy allows.
  pub record IsDurable (s : State) : Type 0 where
    pub policy : IsPolicy s.fsync_policy
    pub file : File
    pub backed : s.file ≡ some file
    pub on_disk : lines s.entries ≡ some file.written
    pub synced : List LogEntry
    pub recent : List LogEntry
    pub parts : s.entries ≡ synced ++ recent
    pub safe : lines synced ≡ some file.durable
    pub counted : length recent ≡ s.appends_since_sync
    pub few : s.appends_since_sync ≤ max_loss s.fsync_policy

  commit-IsDurable :
      (s : State) (f : File) (e : LogEntry) (d : IsDurable s)
      → f.durable ≡ d.file.durable
      → lines (s.entries ++ (e ∷ [])) ≡ some f.written
      → IsDurable (commit s f e true).0
        × ((commit s f e true).1 ≡ ok (length s.entries))
        × ((commit s f e true).0.entries ≡ s.entries ++ (e ∷ []))
  unfolding commit sync_data
  commit-IsDurable s f e d kept disk =
      elim (Bool-cases (should_sync s.fsync_policy (saturating_next s.appends_since_sync))) [
        | inl now ↦ rw now (
          record {
            policy = d.policy;
            file = record f { durable = f.written };
            backed = refl;
            on_disk = disk;
            synced = s.entries ++ (e ∷ []);
            recent = [];
            parts = sym (append-nil (s.entries ++ (e ∷ [])));
            safe = disk;
            counted = refl;
            few = omega arith;
          },
          refl,
          refl,
        )
        | inr later ↦
            let (next, few) = not_yet s.fsync_policy s.appends_since_sync d.policy d.few later in
            rw later (
              record {
                policy = d.policy;
                file = f;
                backed = refl;
                on_disk = disk;
                synced = d.synced;
                recent = d.recent ++ (e ∷ []);
                parts = ap (λ es. es ++ (e ∷ [])) d.parts ∙ append_assoc d.synced d.recent (e ∷ []);
                safe = d.safe ∙ ap some (sym kept);
                counted = omega (arith, length-append d.recent (e ∷ []), d.counted, next);
                few = omega (arith, next, few);
              },
              refl,
              refl,
            )
      ]

  append_entry-IsDurable :
      (s : State) (e : LogEntry) (line : List ℕ) (d : IsDurable s)
      → to_string e ≡ some line
      → IsDurable (append_entry crates to_string s e s.file success).0
        × ((append_entry crates to_string s e s.file success).1 ≡ ok (length s.entries))
        × ((append_entry crates to_string s e s.file success).0.entries ≡ s.entries ++ (e ∷ []))
  unfolding append_entry
  append_entry-IsDurable s e line d t =
      rw (d.backed, t)
        (commit-IsDurable s (record d.file { written = (d.file.written ++ line) ++ (10 ∷ []) }) e d
          refl (lines-snoc s.entries e d.file.written line d.on_disk t))

  -- An append to a log whose file is up to date, in which the writes and the sync succeed, answers
  -- with the next number and adds the entry; the file stays up to date, and its durable part lacks
  -- at most as many entries as the fsync policy allows.
  pub append-IsDurable :
      (s : State) (id_pk evidence : List ℕ) (observed_at_unix : ℕ) (line : List ℕ)
      → IsDurable s
      → to_string (from_evidence crates (length s.entries) id_pk evidence observed_at_unix)
        ≡ some line
      → IsDurable (append crates to_string s id_pk evidence observed_at_unix success).0
        × ((append crates to_string s id_pk evidence observed_at_unix success).1
            ≡ ok (length s.entries))
        × ((append crates to_string s id_pk evidence observed_at_unix success).0.entries
            ≡ s.entries
              ++ (from_evidence crates (length s.entries) id_pk evidence observed_at_unix ∷ []))
  unfolding append
  append-IsDurable s id_pk evidence observed_at_unix line d t =
      append_entry-IsDurable s
        (from_evidence crates (length s.entries) id_pk evidence observed_at_unix) line d t
