-- ===== src/Transparency/Reopen/Recovers.antt =====
-- A file of a log's lines is reopened to the log's entries, also after a torn last write.
use ullm.Prelude.{
  ℕ, zero, suc, ◌+◌, ◌<◌, ◌≤◌, ◌≡◌, refl, sym, ap, ◌∙◌, Bool, true, false, ◌==◌, leb, ltb, List, [],
  ◌∷◌, ◌++◌, some, length, length-append, arith, All,
}
use mathlib.Core.List.{append_assoc, append-nil}
use ullm.Core.{ok}
use ullm.Transparency.Entry.{LogEntry}
use ullm.Transparency.Log.{File}
use ullm.Transparency.Reopen.{
  Parsers, Scan, is_ascii_whitespace, all_blank, depth_fits, take_line, scan_chunk, scan_loop,
}
use ullm.Transparency.Reopen.Chunks.{OneLine, read_until-line, terminated-line, trim-line}

-- A text that the loop comes to parse: one object on one line, within the bounds.
pub record IsText (parsers : Parsers) (l : List ℕ) : Type 0 where
  pub one_line : OneLine l
  pub short : length l ≤ 16777216
  pub rest : List ℕ
  pub object : l ≡ 123 ∷ rest
  pub utf8 : parsers.is_utf8 l ≡ true
  pub flat : depth_fits 0 false false l ≡ true

-- The line of an entry.
pub record IsLine (parsers : Parsers) (row : LogEntry × List ℕ) : Type 0 where
  pub text : IsText parsers row.1
  pub reads : parsers.from_str row.1 ≡ some row.0

-- The entries are numbered from a given number on.
abbrev pub Numbered : ℕ → List (LogEntry × List ℕ) → Type 0
Numbered n [] = Unit {0}
Numbered n ((e, l) ∷ rows) = (e.seq ≡ n) × Numbered (suc n) rows

-- The lines, each ended, and what follows them.
abbrev pub file_of : List (LogEntry × List ℕ) → List ℕ → List ℕ
file_of [] tail = tail
file_of ((e, l) ∷ rows) tail = l ++ (10 ∷ file_of rows tail)

abbrev pub entries_of : List (LogEntry × List ℕ) → List LogEntry
entries_of [] = []
entries_of ((e, l) ∷ rows) = e ∷ entries_of rows

pub object-nonblank : (l rest : List ℕ) → l ≡ 123 ∷ rest → all_blank l ≡ false
unfolding all_blank is_ascii_whitespace
object-nonblank l rest e = rw e refl

abbrev scan_of : List LogEntry → ℕ → Bool → File → Scan
scan_of entries at is_terminated f = record {
  entries = entries;
  good_end = at;
  cursor = at;
  last_good_terminated = is_terminated;
  file = f;
}

module _ (parsers : Parsers) where
  -- The state after one line.
  abbrev pub after : Scan → LogEntry → ℕ → Bool → Scan
  after s e n is_terminated = record s {
    entries = s.entries ++ (e ∷ []);
    good_end = s.cursor + n;
    cursor = s.cursor + n;
    last_good_terminated = is_terminated;
  }

  scan_chunk-line :
      (s : Scan) (e : LogEntry) (l : List ℕ)
      → IsLine parsers (e, l)
      → e.seq ≡ length s.entries
      → scan_chunk parsers s (l ++ (10 ∷ [])) ≡ ok (after s e (length (l ++ (10 ∷ []))) true)
  unfolding scan_chunk take_line
  scan_chunk-line s e l is number =
      let same : (e.seq == length s.entries) ≡ true = ground (arith, number) in
      rw
        (
          terminated-line l,
          trim-line l,
          object-nonblank l is.text.rest is.text.object,
          is.text.utf8,
          is.text.flat,
          is.reads,
          same,
        )
        refl

  scan_loop-line :
      (fuel : ℕ) (s : Scan) (e : LogEntry) (l bytes : List ℕ)
      → IsLine parsers (e, l)
      → e.seq ≡ length s.entries
      → scan_loop parsers (suc fuel) s (l ++ (10 ∷ bytes))
        ≡ scan_loop parsers fuel (after s e (length (l ++ (10 ∷ []))) true) bytes
  unfolding scan_loop
  scan_loop-line fuel s e l bytes is number =
      let size = length-append l (10 ∷ []) in
      let some_bytes : leb (length (l ++ (10 ∷ []))) 0 ≡ false = ground (arith, size) in
      let fits : ltb 16777217 (length (l ++ (10 ∷ []))) ≡ false =
        ground (arith, size, is.text.short) in
      rw
        (
          read_until-line 16777218 l bytes is.text.one_line (omega (arith, is.text.short)),
          some_bytes,
          fits,
          scan_chunk-line s e l is number,
        )
        refl

  -- The state after all lines.
  abbrev pub after_all : Scan → List (LogEntry × List ℕ) → Scan
  after_all s rows = record {
    entries = s.entries ++ entries_of rows;
    good_end = s.cursor + length (file_of rows []);
    cursor = s.cursor + length (file_of rows []);
    last_good_terminated = true;
    file = s.file;
  }

  -- The loop has read the lines and stands before the tail.
  pub scan_loop-rows :
      (rows : List (LogEntry × List ℕ)) (tail : List ℕ) (fuel : ℕ) (s : Scan)
      → All (IsLine parsers) rows
      → Numbered (length s.entries) rows
      → s.good_end ≡ s.cursor
      → s.last_good_terminated ≡ true
      → length (file_of rows tail) < fuel
      → (fuel' : ℕ) × (length tail < fuel')
        × (scan_loop parsers fuel s (file_of rows tail)
            ≡ scan_loop parsers fuel' (after_all s rows) tail)
  scan_loop-rows [] tail fuel s is numbered at_end ended enough =
      let none_more : s.entries ≡ s.entries ++ [] = sym (append-nil s.entries) in
      let still : s.cursor ≡ s.cursor + 0 = omega arith in
      (fuel, enough, cc (none_more, still, at_end, ended))
  scan_loop-rows ((e, l) ∷ rows) tail zero s is numbered at_end ended enough =
      absurd (omega (arith, enough))
  scan_loop-rows ((e, l) ∷ rows) tail (suc fuel) s is numbered at_end ended enough =
      let size = length-append l (10 ∷ []) in
      let whole = length-append l (10 ∷ file_of rows tail) in
      let s' = after s e (length (l ++ (10 ∷ []))) true in
      let count : length s'.entries ≡ suc (length s.entries) =
        omega (arith, length-append s.entries (e ∷ [])) in
      let longer : (s.entries ++ (e ∷ [])) ++ entries_of rows ≡ s.entries ++ (e ∷ entries_of rows) =
        append_assoc s.entries (e ∷ []) (entries_of rows) in
      let further : s'.cursor + length (file_of rows [])
          ≡ s.cursor + length (l ++ (10 ∷ file_of rows [])) =
        omega (arith, size, length-append l (10 ∷ file_of rows [])) in
      let (fuel', enough', rest) =
        scan_loop-rows rows tail fuel s' is.1 (rw count numbered.1) refl refl
          (omega (arith, whole, enough)) in
      (
        fuel',
        enough',
        scan_loop-line fuel s e l (file_of rows tail) is.0 numbered.0
            ∙ rest
            ∙ ap (λ x. scan_loop parsers fuel' x tail) (cc (longer, further)),
      )
