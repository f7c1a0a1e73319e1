-- ===== src/Transparency/Reopen/Refuses.antt =====
-- A log's file with a line out of number is not reopened.
use ullm.Prelude.{
  ℕ, zero, suc, ◌+◌, ◌<◌, ◌≡◌, refl, sym, ap, ◌∙◌, false, ◌==◌, leb, ltb, List, [], ◌∷◌, ◌++◌, some,
  length, length-append, arith, All, All-append,
}
use mathlib.Core.List.{append_assoc}
use ullm.Core.{Error, err}
use ullm.Transparency.Entry.{LogEntry}
use ullm.Transparency.Log.{File}
use ullm.Transparency.Reopen.{
  Parsers, Scan, take_line, scan_chunk, scan_loop, has_bom, first_scan, open_persistent,
}
use ullm.Transparency.Reopen.Chunks.{read_until-line, terminated-line, trim-line}
use ullm.Transparency.Reopen.Recovers.{
  IsLine, Numbered, file_of, entries_of, object-nonblank, after_all, scan_loop-rows,
}
use ullm.Transparency.Reopen.Tails.{file_of-append, has_bom_text}

module _ (parsers : Parsers) where
  scan_chunk-misnumbered :
      (s : Scan) (e : LogEntry) (l : List ℕ)
      → IsLine parsers (e, l)
      → (e.seq == length s.entries) ≡ false
      → scan_chunk parsers s (l ++ (10 ∷ [])) ≡ err Error.other
  unfolding scan_chunk take_line
  scan_chunk-misnumbered s e l is other =
      rw
        (
          terminated-line l,
          trim-line l,
          object-nonblank l is.text.rest is.text.object,
          is.text.utf8,
          is.text.flat,
          is.reads,
          other,
        )
        refl

  scan_loop-misnumbered :
      (fuel : ℕ) (s : Scan) (e : LogEntry) (l bytes : List ℕ)
      → IsLine parsers (e, l)
      → (e.seq == length s.entries) ≡ false
      → 0 < fuel
      → scan_loop parsers fuel s (l ++ (10 ∷ bytes)) ≡ some (err Error.other)
  unfolding scan_loop
  scan_loop-misnumbered zero s e l bytes is other lt = absurd (omega (arith, lt))
  scan_loop-misnumbered (suc fuel) s e l bytes is other lt =
      let size = length-append l (10 ∷ []) in
      let some_bytes : leb (length (l ++ (10 ∷ []))) 0 ≡ false = ground (arith, size) in
      let fits : ltb 16777217 (length (l ++ (10 ∷ []))) ≡ false =
        ground (arith, size, is.text.short) in
      rw
        (
          read_until-line 16777218 l bytes is.text.one_line (omega (arith, is.text.short)),
          some_bytes,
          fits,
          scan_chunk-misnumbered s e l is other,
        )
        refl

  scan_loop-refused :
      (rows : List (LogEntry × List ℕ)) (e : LogEntry) (l : List ℕ) (f : File)
      → All (IsLine parsers) rows
      → Numbered 0 rows
      → IsLine parsers (e, l)
      → (e.seq == length (entries_of rows)) ≡ false
      → has_bom f.written ≡ false
      → f.written ≡ file_of rows (l ++ (10 ∷ []))
      → scan_loop parsers (suc (length f.written)) (first_scan f) f.written ≡ some (err Error.other)
  unfolding first_scan
  scan_loop-refused rows e l f is numbered is_e other unmarked whole =
      let (fuel', enough, rows_read) =
        scan_loop-rows parsers rows (l ++ (10 ∷ [])) (suc (length f.written)) (first_scan f) is
          numbered refl refl (omega (arith, ap length whole)) in
      ap (scan_loop parsers (suc (length f.written)) (first_scan f)) whole
      ∙ rows_read
      ∙ scan_loop-misnumbered fuel' (after_all parsers (first_scan f) rows) e l [] is_e other
          (omega (arith, enough))

  -- A file whose lines are numbered from 0, but for the last, does not reopen.
  open_persistent-misnumbered :
      (rows : List (LogEntry × List ℕ)) (e : LogEntry) (l : List ℕ) (f : File)
      → All (IsLine parsers) rows
      → Numbered 0 rows
      → IsLine parsers (e, l)
      → (e.seq == length (entries_of rows)) ≡ false
      → has_bom f.written ≡ false
      → f.written ≡ file_of rows (l ++ (10 ∷ []))
      → open_persistent parsers (some f) ≡ some (err Error.other)
  unfolding open_persistent
  open_persistent-misnumbered rows e l f is numbered is_e other unmarked whole =
      rw (unmarked, scan_loop-refused rows e l f is numbered is_e other unmarked whole) refl

  -- The rows with one more, and the file with two lines more.
  file_of-snoc :
      (rows : List (LogEntry × List ℕ)) (e : LogEntry) (l tail : List ℕ)
      → file_of (rows ++ ((e, l) ∷ [])) tail ≡ file_of rows (l ++ (10 ∷ tail))
  file_of-snoc [] e l tail = refl
  file_of-snoc ((x, k) ∷ rows) e l tail = ap (λ t. k ++ (10 ∷ t)) (file_of-snoc rows e l tail)

  Numbered-snoc :
      (n : ℕ) (rows : List (LogEntry × List ℕ)) (e : LogEntry) (l : List ℕ)
      → Numbered n rows
      → e.seq ≡ n + length (entries_of rows)
      → Numbered n (rows ++ ((e, l) ∷ []))
  Numbered-snoc n [] e l h q = (q ∙ omega arith, tt)
  Numbered-snoc n ((x, k) ∷ rows) e l h q =
      (h.0, Numbered-snoc (suc n) rows e l h.1 (q ∙ omega arith))

  length-snoc :
      (rows : List (LogEntry × List ℕ)) (e : LogEntry) (l : List ℕ)
      → length (entries_of (rows ++ ((e, l) ∷ []))) ≡ suc (length (entries_of rows))
  length-snoc [] e l = refl
  length-snoc ((x, k) ∷ rows) e l = ap suc (length-snoc rows e l)

  has_bom-snoc :
      (rows : List (LogEntry × List ℕ)) (e : LogEntry) (l tail : List ℕ)
      → All (IsLine parsers) rows
      → IsLine parsers (e, l)
      → has_bom (file_of (rows ++ ((e, l) ∷ [])) tail) ≡ false
  has_bom-snoc [] e l tail is is_e = has_bom_text l is_e.text.rest (10 ∷ tail) is_e.text.object
  has_bom-snoc ((x, k) ∷ rows) e l tail is is_e =
      has_bom_text k is.0.text.rest (10 ∷ file_of (rows ++ ((e, l) ∷ [])) tail) is.0.text.object

  two_lines :
      (w k l : List ℕ)
      → (((w ++ k) ++ (10 ∷ [])) ++ l) ++ (10 ∷ []) ≡ w ++ (k ++ (10 ∷ (l ++ (10 ∷ []))))
  two_lines w k l =
      append_assoc ((w ++ k) ++ (10 ∷ [])) l (10 ∷ [])
      ∙ append_assoc (w ++ k) (10 ∷ []) (l ++ (10 ∷ []))
      ∙ append_assoc w k (10 ∷ (l ++ (10 ∷ [])))

  -- Two lines more with one number, the next one: the file does not reopen.
  pub open_persistent-twice :
      (rows : List (LogEntry × List ℕ)) (e e' : LogEntry) (l l' : List ℕ) (f : File)
      → All (IsLine parsers) rows
      → Numbered 0 rows
      → IsLine parsers (e, l)
      → IsLine parsers (e', l')
      → e.seq ≡ length (entries_of rows)
      → e'.seq ≡ length (entries_of rows)
      → f.written ≡ (((file_of rows [] ++ l) ++ (10 ∷ [])) ++ l') ++ (10 ∷ [])
      → open_persistent parsers (some f) ≡ some (err Error.other)
  open_persistent-twice rows e e' l l' f is numbered is_e is_e' q q' written =
      let whole : f.written ≡ file_of (rows ++ ((e, l) ∷ [])) (l' ++ (10 ∷ [])) =
        written
        ∙ two_lines (file_of rows []) l l'
        ∙ sym (file_of-append parsers rows (l ++ (10 ∷ (l' ++ (10 ∷ [])))))
        ∙ sym (file_of-snoc rows e l (l' ++ (10 ∷ []))) in
      let other : (e'.seq == length (entries_of (rows ++ ((e, l) ∷ [])))) ≡ false =
        ground (arith, q', length-snoc rows e l) in
      open_persistent-misnumbered (rows ++ ((e, l) ∷ [])) e' l' f
        (All-append (IsLine parsers) rows ((e, l) ∷ []) is (is_e, tt))
        (Numbered-snoc 0 rows e l numbered (q ∙ omega arith)) is_e' other
        (ap has_bom whole ∙ has_bom-snoc rows e l (l' ++ (10 ∷ [])) is is_e) whole
