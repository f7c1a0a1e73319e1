-- ===== src/Transparency/Reopen.antt =====
-- `TransparencyLog::open_persistent` of crates/ullm-transparency/src/log.rs: the file of a log read
-- line by line, a torn last line cut off, an unterminated one completed. The calls that open, read,
-- cut and extend the file succeed; the texts of the errors are left out.
pub mod Chunks
pub mod Recovers
pub mod Refuses
pub mod Tails
pub mod Unsynced
pub mod Tests
use ullm.Prelude.{
  ℕ, zero, suc, ◌+◌, ◌-◌, ◌*◌, Bool, true, false, not, ◌&&◌, ◌||◌, ◌==◌, leb, ltb, if◌then◌else◌,
  List, [], ◌∷◌, ◌++◌, Option, none, some, length, take, drop,
}
use ullm.Core.{Error, Result, ok, err, panic}
use ullm.Transparency.Entry.{LogEntry}
use ullm.Transparency.Log.{State, File, FsyncPolicy}

-- `serde_json::from_str` on an entry, and whether `std::str::from_utf8` accepts a text.
pub record Parsers : Type 0 where
  pub from_str : List ℕ → Option LogEntry
  pub is_utf8 : List ℕ → Bool

abbrev pub max_reopen_line_bytes : ℕ
max_reopen_line_bytes = 16 * 1024 * 1024

abbrev pub max_json_depth : ℕ
max_json_depth = 32

-- `take(limit).read_until(b'\n')`: the chunk, with its newline if it has one, and the rest.
unfoldable pub read_until : ℕ → List ℕ → List ℕ × List ℕ
read_until zero bytes = ([], bytes)
read_until (suc limit) [] = ([], [])
read_until (suc limit) (b ∷ bytes) =
    let (chunk, rest) = read_until limit bytes in
    if b == 10 then (b ∷ [], bytes) else (b ∷ chunk, rest)

-- `chunk.last() == Some(&b'\n')`
unfoldable pub terminated : List ℕ → Bool
terminated [] = false
terminated (b ∷ []) = b == 10
terminated (b ∷ c ∷ bytes) = terminated (c ∷ bytes)

-- `u8::is_ascii_whitespace`
unfoldable pub is_ascii_whitespace : ℕ → Bool
is_ascii_whitespace b = b == 32 || b == 9 || b == 10 || b == 12 || b == 13

unfoldable pub all_blank : List ℕ → Bool
all_blank [] = true
all_blank (b ∷ bytes) = is_ascii_whitespace b && all_blank bytes

unfoldable pub is_opening : ℕ → Bool
is_opening b = b == 123 || b == 91

unfoldable pub is_closing : ℕ → Bool
is_closing b = b == 125 || b == 93

-- The scan of the nesting: false where it goes deeper than allowed.
unfoldable pub depth_fits : ℕ → Bool → Bool → List ℕ → Bool
depth_fits depth in_string escaped [] = true
depth_fits depth in_string true (b ∷ bytes) = depth_fits depth in_string false bytes
depth_fits depth true false (b ∷ bytes) = depth_fits depth (not (b == 34)) (b == 92) bytes
depth_fits depth false false (b ∷ bytes) =
    let quoted = depth_fits depth true false bytes in
    let deeper = depth_fits (depth + 1) false false bytes in
    let shallower = depth_fits (depth - 1) false false bytes in
    let level = depth_fits depth false false bytes in
    if b == 34
    then quoted
    else if is_opening b
    then (not (ltb max_json_depth (depth + 1)) && deeper)
    else if is_closing b
    then shallower
    else level

-- The state of the loop.
pub record Scan : Type 0 where
  pub entries : List LogEntry
  pub good_end : ℕ
  pub cursor : ℕ
  pub last_good_terminated : Bool
  pub file : File

-- `set_len` and `sync_data`
unfoldable pub truncate : File → ℕ → File
truncate f n = record { written = take n f.written; durable = take n f.written }

-- `write_all(b"\n")` and `sync_data`
unfoldable pub pad : File → File
pad f = record { written = f.written ++ (10 ∷ []); durable = f.written ++ (10 ∷ []) }

-- The `match` on what the parser gave for a line.
unfoldable pub take_line : Scan → ℕ → Bool → Option LogEntry → Result Scan
take_line s cursor is_terminated (some entry) =
    if not (entry.seq == length s.entries)
    then err Error.other
    else ok (record s {
      entries = s.entries ++ (entry ∷ []);
      good_end = cursor;
      cursor = cursor;
      last_good_terminated = is_terminated;
    })
take_line s cursor is_terminated none =
    if not is_terminated
    then ok (record s { cursor = cursor; file = truncate s.file s.good_end })
    else err Error.other

unfoldable pub has_bom : List ℕ → Bool
has_bom (a ∷ b ∷ c ∷ bytes) = a == 0xef && (b == 0xbb && c == 0xbf)
has_bom _ = false

unfoldable pub first_scan : File → Scan
first_scan f =
    let start = if has_bom f.written then 3 else 0 in
    record { entries = []; good_end = start; cursor = start; last_good_terminated = true; file = f }

unfoldable pub reopened : Scan → State
reopened s =
    let unpadded = not s.last_good_terminated && not (leb (length s.entries) 0) in
    record {
      entries = s.entries;
      file = some (if unpadded then pad s.file else s.file);
      appends_since_sync = 0;
      fsync_policy = FsyncPolicy.always;
    }

module _ (parsers : Parsers) where
  -- One turn of the loop, on a chunk that is neither empty nor too long.
  unfoldable pub scan_chunk : Scan → List ℕ → Result Scan
  scan_chunk s chunk =
      let cursor = s.cursor + length chunk in
      let trimmed = if terminated chunk then take (length chunk - 1) chunk else chunk in
      if all_blank trimmed
      then ok
          (record s { cursor = cursor; good_end = if terminated chunk then cursor else s.good_end })
      else if not (parsers.is_utf8 trimmed)
      then err Error.other
      else if not (depth_fits 0 false false trimmed)
      then err Error.other
      else take_line s cursor (terminated chunk) (parsers.from_str trimmed)

  -- The loop, on fuel; out of fuel it gives nothing.
  unfoldable pub scan_loop : ℕ → Scan → List ℕ → Option (Result Scan)
  scan_loop zero s bytes = none
  scan_loop (suc fuel) s bytes =
      let (chunk, rest) = read_until (max_reopen_line_bytes + 2) bytes in
      turn (leb (length chunk) 0) (ltb (max_reopen_line_bytes + 1) (length chunk))
        (scan_chunk s chunk) (λ s'. scan_loop fuel s' rest)
    where
      next : Result Scan → (Scan → Option (Result Scan)) → Option (Result Scan)
      next (ok s') go = go s'
      next (err e) go = some (err e)
      next panic go = some panic

      turn : Bool → Bool → Result Scan → (Scan → Option (Result Scan)) → Option (Result Scan)
      turn true too_long scanned go = some (ok s)
      turn false true scanned go = some (err Error.other)
      turn false false scanned go = next scanned go

  unfoldable pub open_persistent : Option File → Option (Result State)
  open_persistent none = some (
      ok (record {
        entries = [];
        file = some (record { written = []; durable = [] });
        appends_since_sync = 0;
        fsync_policy = FsyncPolicy.always;
      }))
  open_persistent (some f) = finish (scan_loop (suc (length f.written)) (first_scan f) unread)
    where
      unread : List ℕ
      unread = if has_bom f.written then drop 3 f.written else f.written

      finish : Option (Result Scan) → Option (Result State)
      finish none = none
      finish (some (ok s)) = some (ok (reopened s))
      finish (some (err e)) = some (err e)
      finish (some panic) = some panic
