-- ===== src/Transparency/Reopen/Tails.antt =====
-- The end of a log's file, as a crash may leave it, and what reopening makes of the whole.
use ullm.Prelude.{
  ℕ, zero, suc, ◌+◌, ◌<◌, ◌≤◌, ◌≡◌, refl, sym, ap, ◌∙◌, true, false, ◌==◌, leb, ltb, List, [], ◌∷◌,
  ◌++◌, none, some, length, length-append, take, arith, All, take-length-append,
}
use mathlib.Core.List.{append_assoc, append-nil}
use ullm.Core.{ok}
use ullm.Transparency.Entry.{LogEntry}
use ullm.Transparency.Log.{State, File, FsyncPolicy}
use ullm.Transparency.Reopen.{
  Parsers, Scan, truncate, pad, take_line, scan_chunk, scan_loop, has_bom, first_scan, reopened,
  open_persistent, read_until,
}
use ullm.Transparency.Reopen.Chunks.{read_until-tail, terminated-tail}
use ullm.Transparency.Reopen.Recovers.{
  IsText, IsLine, Numbered, file_of, entries_of, object-nonblank, after, after_all, scan_loop-rows,
}

-- Nothing; a line cut short by a crash; or a whole line whose newline is missing.
pub data Tail : Type 0 where
  clean : Tail
  torn : List ℕ → Tail
  unended : LogEntry → List ℕ → Tail

abbrev pub tail_bytes : Tail → List ℕ
tail_bytes clean = []
tail_bytes (torn t) = t
tail_bytes (unended e l) = l

abbrev pub tail_entries : Tail → List LogEntry
tail_entries clean = []
tail_entries (torn t) = []
tail_entries (unended e l) = e ∷ []

-- The torn text is no entry; the whole line is the entry that is next.
abbrev pub IsTail : Parsers → ℕ → Tail → Type 0
IsTail parsers n clean = Unit {0}
IsTail parsers n (torn t) = IsText parsers t × (parsers.from_str t ≡ none)
IsTail parsers n (unended e l) = IsLine parsers (e, l) × (e.seq ≡ n)

-- The file that the reopened log goes on with.
abbrev pub mended : List (LogEntry × List ℕ) → Tail → File → File
mended rows clean f = f
mended rows (torn t) f = record { written = file_of rows []; durable = file_of rows [] }
mended rows (unended e l) f = record {
  written = file_of rows l ++ (10 ∷ []);
  durable = file_of rows l ++ (10 ∷ []);
}

has_bom_object : (bytes : List ℕ) → has_bom (123 ∷ bytes) ≡ false
unfolding has_bom
has_bom_object [] = refl
has_bom_object (b ∷ []) = refl
has_bom_object (b ∷ c ∷ bytes) = refl

pub has_bom_text : (l rest bytes : List ℕ) → l ≡ 123 ∷ rest → has_bom (l ++ bytes) ≡ false
has_bom_text l rest bytes e = rw e (has_bom_object (rest ++ bytes))

module _ (parsers : Parsers) where
  no_bom :
      (rows : List (LogEntry × List ℕ)) (n : ℕ) (tail : Tail)
      → All (IsLine parsers) rows
      → IsTail parsers n tail
      → has_bom (file_of rows (tail_bytes tail)) ≡ false
  no_bom ((e, l) ∷ rows) n tail is end =
      has_bom_text l is.0.text.rest (10 ∷ file_of rows (tail_bytes tail)) is.0.text.object
  no_bom [] n clean is end = unfold has_bom in refl
  no_bom [] n (torn t) is end = rw end.0.object (has_bom_object end.0.rest)
  no_bom [] n (unended e l) is end = rw end.0.text.object (has_bom_object end.0.text.rest)

  scan_loop-nil : (fuel : ℕ) (s : Scan) → 0 < fuel → scan_loop parsers fuel s [] ≡ some (ok s)
  unfolding scan_loop read_until
  scan_loop-nil zero s lt = absurd (omega (arith, lt))
  scan_loop-nil (suc fuel) s lt = refl

  -- An unterminated chunk is the last.
  scan_loop-last :
      (fuel : ℕ) (s s' : Scan) (t : List ℕ)
      → IsText parsers t
      → scan_chunk parsers s t ≡ ok s'
      → length t < fuel
      → scan_loop parsers fuel s t ≡ some (ok s')
  unfolding scan_loop
  scan_loop-last zero s s' t is scanned lt = absurd (omega (arith, lt))
  scan_loop-last (suc fuel) s s' t is scanned lt =
      let long : 1 ≤ length t = omega (arith, ap length is.object) in
      let some_bytes : leb (length t) 0 ≡ false = ground (arith, long) in
      let fits : ltb 16777217 (length t) ≡ false = ground (arith, is.short) in
      rw
        (
          read_until-tail 16777218 t is.one_line (omega (arith, is.short)),
          some_bytes,
          fits,
          scanned,
        )
        (scan_loop-nil fuel s' (omega (arith, long, lt)))

  scan_chunk-torn :
      (s : Scan) (t : List ℕ)
      → IsText parsers t
      → parsers.from_str t ≡ none
      → scan_chunk parsers s t
        ≡ ok (record s { cursor = s.cursor + length t; file = truncate s.file s.good_end })
  unfolding scan_chunk take_line
  scan_chunk-torn s t is unread =
      rw
        (
          terminated-tail t is.one_line,
          object-nonblank t is.rest is.object,
          is.utf8,
          is.flat,
          unread,
        )
        refl

  scan_chunk-unended :
      (s : Scan) (e : LogEntry) (l : List ℕ)
      → IsLine parsers (e, l)
      → e.seq ≡ length s.entries
      → scan_chunk parsers s l ≡ ok (after parsers s e (length l) false)
  unfolding scan_chunk take_line
  scan_chunk-unended s e l is number =
      let same : (e.seq == length s.entries) ≡ true = ground (arith, number) in
      rw
        (
          terminated-tail l is.text.one_line,
          object-nonblank l is.text.rest is.text.object,
          is.text.utf8,
          is.text.flat,
          is.reads,
          same,
        )
        refl

  -- What the tail makes of the scan of the lines.
  ended : Scan → Tail → Scan
  ended s clean = s
  ended s (torn t) = record s { cursor = s.cursor + length t; file = truncate s.file s.good_end }
  ended s (unended e l) = after parsers s e (length l) false

  scan_loop-ended :
      (fuel : ℕ) (s : Scan) (tail : Tail)
      → IsTail parsers (length s.entries) tail
      → length (tail_bytes tail) < fuel
      → scan_loop parsers fuel s (tail_bytes tail) ≡ some (ok (ended s tail))
  unfolding ended
  scan_loop-ended fuel s clean is lt = scan_loop-nil fuel s lt
  scan_loop-ended fuel s (torn t) is lt =
      scan_loop-last fuel s _ t is.0 (scan_chunk-torn s t is.0 is.1) lt
  scan_loop-ended fuel s (unended e l) is lt =
      scan_loop-last fuel s _ l is.0.text (scan_chunk-unended s e l is.0 is.1) lt

  pub file_of-append :
      (rows : List (LogEntry × List ℕ)) (tail : List ℕ)
      → file_of rows tail ≡ file_of rows [] ++ tail
  file_of-append [] tail = refl
  file_of-append ((e, l) ∷ rows) tail =
      ap (λ t. l ++ (10 ∷ t)) (file_of-append rows tail)
      ∙ sym (append_assoc l (10 ∷ file_of rows []) tail)

  -- The reopened log.
  abbrev pub recovered : List (LogEntry × List ℕ) → Tail → File → State
  recovered rows tail f = record {
    entries = entries_of rows ++ tail_entries tail;
    file = some (mended rows tail f);
    appends_since_sync = 0;
    fsync_policy = FsyncPolicy.always;
  }

  reopened-ended :
      (rows : List (LogEntry × List ℕ)) (tail : Tail) (f : File)
      → has_bom f.written ≡ false
      → f.written ≡ file_of rows (tail_bytes tail)
      → reopened (ended (after_all parsers (first_scan f) rows) tail) ≡ recovered rows tail f
  unfolding reopened ended first_scan truncate pad
  reopened-ended rows clean f unmarked whole = rw (append-nil (entries_of rows)) refl
  reopened-ended rows (torn t) f unmarked whole =
      let start : 0 + length (file_of rows []) ≡ length (file_of rows []) = omega arith in
      let cut : take (length (file_of rows [])) f.written ≡ file_of rows [] =
        ap (take (length (file_of rows []))) (whole ∙ file_of-append rows t)
        ∙ take-length-append (file_of rows []) t in
      rw (unmarked, start, cut, append-nil (entries_of rows)) refl
  reopened-ended rows (unended e l) f unmarked whole =
      let some_entries : leb (length (entries_of rows ++ (e ∷ []))) 0 ≡ false =
        ground (arith, length-append (entries_of rows) (e ∷ [])) in
      rw (some_entries, whole) refl

  scan_loop-whole :
      (rows : List (LogEntry × List ℕ)) (tail : Tail) (f : File)
      → All (IsLine parsers) rows
      → Numbered 0 rows
      → IsTail parsers (length (entries_of rows)) tail
      → f.written ≡ file_of rows (tail_bytes tail)
      → scan_loop parsers (suc (length f.written)) (first_scan f) f.written
        ≡ some (ok (ended (after_all parsers (first_scan f) rows) tail))
  unfolding first_scan
  scan_loop-whole rows tail f is numbered end whole =
      let (fuel', enough, rows_read) =
        scan_loop-rows parsers rows (tail_bytes tail) (suc (length f.written)) (first_scan f) is
          numbered refl refl (omega (arith, ap length whole)) in
      ap (scan_loop parsers (suc (length f.written)) (first_scan f)) whole
      ∙ rows_read
      ∙ scan_loop-ended fuel' (after_all parsers (first_scan f) rows) tail end enough

  -- A file that has the lines of entries numbered from 0, then nothing, a text cut short by a crash,
  -- or the next entry's line without its newline, is reopened: the loop's fuel is enough, the log
  -- has exactly the entries that are whole, the cut text is gone from the file, and a missing
  -- newline is added.
  pub open_persistent-Recovers :
      (rows : List (LogEntry × List ℕ)) (tail : Tail) (f : File)
      → All (IsLine parsers) rows
      → Numbered 0 rows
      → IsTail parsers (length (entries_of rows)) tail
      → f.written ≡ file_of rows (tail_bytes tail)
      → open_persistent parsers (some f) ≡ some (ok (recovered rows tail f))
  unfolding open_persistent
  open_persistent-Recovers rows tail f is numbered end whole =
      let unmarked : has_bom f.written ≡ false =
        ap has_bom whole ∙ no_bom rows (length (entries_of rows)) tail is end in
      rw (unmarked, scan_loop-whole rows tail f is numbered end whole)
        (ap (λ s. some (ok s)) (reopened-ended rows tail f unmarked whole))
