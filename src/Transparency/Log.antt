-- ===== src/Transparency/Log.antt =====
-- crates/ullm-transparency/src/log.rs: the append-only log, in memory and in a file of JSON lines.
-- A file is the bytes written to it and those of them that a sync has made durable. Whether a
-- write or a sync succeeds is the environment's choice, an argument of the call.
pub mod Durable
use ullm.Prelude.{
  ℕ, ◌+◌, ◌-◌, ◌^◌, Bool, true, false, not, ◌||◌, leb, ltb, if◌then◌else◌, List, [], ◌∷◌, ◌++◌,
  Option, none, some, length, get_elem?, take, drop,
}
use Prim.Native.Nat.{min}
use ullm.Core.{Error, Result, ok, err, panic, ◌>>=◌}
use ullm.Transparency.Entry.{Crates, LogEntry, from_evidence}
use ullm.Transparency.Merkle.{merkle_root}

pub record LogStatus : Type 0 where
  pub size : ℕ
  pub root_hex : List ℕ

pub data FsyncPolicy : Type 0 where
  always : FsyncPolicy
  periodic : ℕ → FsyncPolicy

pub record File : Type 0 where
  pub written : List ℕ
  pub durable : List ℕ

pub record State : Type 0 where
  pub entries : List LogEntry
  pub file : Option File
  pub appends_since_sync : ℕ
  pub fsync_policy : FsyncPolicy

-- What the environment does to the two writes and the sync of one call: `none` is success, and a
-- write that fails leaves a number of its bytes in the file.
pub record Environment : Type 0 where
  pub line : Option ℕ
  pub newline : Option ℕ
  pub sync : Bool

-- `write_all`
unfoldable pub write_all : Option ℕ → File → List ℕ → File × Result (Unit {0})
write_all none f data_ = (record f { written = f.written ++ data_ }, ok tt)
write_all (some n) f data_ = (record f { written = f.written ++ take n data_ }, err Error.transport)

-- `sync_data`
unfoldable pub sync_data : Bool → File → File × Result (Unit {0})
sync_data true f = (record f { durable = f.written }, ok tt)
sync_data false f = (f, err Error.transport)

unfoldable pub new_log : State
new_log = record {
  entries = [];
  file = none;
  appends_since_sync = 0;
  fsync_policy = FsyncPolicy.always;
}

unfoldable pub set_fsync_policy : State → FsyncPolicy → State
set_fsync_policy s policy = record s { fsync_policy = policy; appends_since_sync = 0 }

-- After `f.sync_data()?` in `flush`, and without a file.
unfoldable pub flush_file : State → Option File → Bool → State × Result (Unit {0})
unfolding sync_data
flush_file s none synced = (record s { appends_since_sync = 0 }, ok tt)
flush_file s (some f) true =
    (record s { file = some (sync_data true f).0; appends_since_sync = 0 }, ok tt)
flush_file s (some f) false = (s, err Error.transport)

unfoldable pub flush : State → Bool → State × Result (Unit {0})
unfolding flush_file
flush s synced = flush_file s s.file synced

-- `Drop::drop`: a last sync, whose failure is ignored.
unfoldable pub drop_file : State → Option File → Bool → State
unfolding sync_data
drop_file s none synced = s
drop_file s (some f) synced = record s { file = some (sync_data synced f).0 }

unfoldable pub drop_log : State → Bool → State
unfolding drop_file
drop_log s synced = drop_file s s.file synced

-- `saturating_add(1)` on 32 bits
unfoldable pub saturating_next : ℕ → ℕ
saturating_next n = if ltb n (2 ^ 32 - 1) then n + 1 else n

unfoldable pub should_sync : FsyncPolicy → ℕ → Bool
should_sync FsyncPolicy.always appends = true
should_sync (FsyncPolicy.periodic every_n) appends = leb every_n 1 || leb every_n appends

-- The branch of a log with a file, from the written line on: count the append, sync when the
-- policy says so, and push the entry.
unfoldable pub commit : State → File → LogEntry → Bool → State × Result ℕ
unfolding saturating_next should_sync sync_data
commit s f entry synced =
    let appends = saturating_next s.appends_since_sync in
    if not (should_sync s.fsync_policy appends)
    then (
      record s { file = some f; appends_since_sync = appends; entries = s.entries ++ (entry ∷ []) },
      ok (length s.entries),
    )
    else if synced
    then (
      record s {
        file = some (sync_data true f).0;
        appends_since_sync = 0;
        entries = s.entries ++ (entry ∷ []);
      },
      ok (length s.entries),
    )
    else (record s { file = some f; appends_since_sync = appends }, err Error.transport)

module _ (crates : Crates) (to_string : LogEntry → Option (List ℕ)) where
  -- The two writes; `to_string` is `serde_json::to_string` on an entry.
  unfoldable pub write_line :
      State → File → LogEntry → Option (List ℕ) → Option ℕ → Option ℕ → Bool → State × Result ℕ
  unfolding write_all commit
  write_line s f entry none line_fault newline_fault synced = (s, err Error.serde)
  write_line s f entry (some line) (some n) newline_fault synced =
      (record s { file = some (write_all (some n) f line).0 }, err Error.transport)
  write_line s f entry (some line) none (some n) synced = (
    record s { file = some (write_all (some n) (write_all none f line).0 (10 ∷ [])).0 },
    err Error.transport,
  )
  write_line s f entry (some line) none none synced =
      commit s (write_all none (write_all none f line).0 (10 ∷ [])).0 entry synced

  unfoldable pub append_entry : State → LogEntry → Option File → Environment → State × Result ℕ
  unfolding write_line
  append_entry s entry none env =
      (record s { entries = s.entries ++ (entry ∷ []) }, ok (length s.entries))
  append_entry s entry (some f) env =
      write_line s f entry (to_string entry) env.line env.newline env.sync

  unfoldable pub append : State → List ℕ → List ℕ → ℕ → Environment → State × Result ℕ
  unfolding append_entry
  append s id_pk evidence_bytes observed_at_unix env =
      let entry = from_evidence crates (length s.entries) id_pk evidence_bytes observed_at_unix in
      append_entry s entry s.file env

unfoldable pub status : Crates → State → Result LogStatus
status crates s = merkle_root crates s.entries >>= λ root.
    ok (record { size = length s.entries; root_hex = crates.hex_encode root })

unfoldable pub entry : State → ℕ → Option LogEntry
entry s seq = get_elem? s.entries seq

-- `entries[start..end]` panics when the start lies above the end.
unfoldable pub entries_slice : State → ℕ → ℕ → Result (List LogEntry)
entries_slice s start end_exclusive =
    let start = min start (length s.entries) in
    let end_ = min end_exclusive (length s.entries) in
    if ltb end_ start then panic else ok (take (end_ - start) (drop start s.entries))
