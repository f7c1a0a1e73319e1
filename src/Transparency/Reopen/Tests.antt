-- ===== src/Transparency/Reopen/Tests.antt =====
-- Reopening a log of one entry with a torn second line, with a parser that reads the numbers of two
-- bytes between brackets.
use ullm.Prelude.{ℕ, ◌≡◌, refl, true, false, ◌==◌, List, [], ◌∷◌, Option, none, some, arith}
use ullm.Core.{Error, ok, err}
use ullm.Transparency.Entry.{LogEntry, from_evidence}
use ullm.Transparency.Log.{State, File, FsyncPolicy, append}
use ullm.Transparency.Log.Durable.{sync_fails}
use ullm.Transparency.Tests.{crates}
use ullm.Transparency.Reopen.{Parsers, depth_fits, is_opening, is_closing, open_persistent}
use ullm.Transparency.Reopen.Recovers.{IsText, IsLine}
use ullm.Transparency.Reopen.Tails.{torn, recovered, open_persistent-Recovers}
use ullm.Transparency.Reopen.Unsynced.{Twice, append_unsynced-Twice}

abbrev entry_of : ℕ → LogEntry
entry_of n = record { seq = n; id_pk_hex = []; evidence_sha256_hex = []; observed_at_unix = 5 }

abbrev from_str : List ℕ → Option LogEntry
from_str (a ∷ n ∷ b ∷ []) = some (entry_of n)
from_str _ = none

abbrev parsers : Parsers
parsers = record { from_str = from_str; is_utf8 = λ l. true }

abbrev line : List ℕ
line = 123 ∷ 0 ∷ 125 ∷ []

abbrev half : List ℕ
half = 123 ∷ 1 ∷ []

line-IsLine : IsLine parsers (entry_of 0, line)
unfolding depth_fits is_opening is_closing
line-IsLine = record {
  text = record {
    one_line = (refl, (refl, (refl, tt)));
    short = omega arith;
    rest = 0 ∷ 125 ∷ [];
    object = refl;
    utf8 = refl;
    flat = refl;
  };
  reads = refl;
}

half-IsText : IsText parsers half
unfolding depth_fits is_opening is_closing
half-IsText = record {
  one_line = (refl, (refl, tt));
  short = omega arith;
  rest = 1 ∷ [];
  object = refl;
  utf8 = refl;
  flat = refl;
}

abbrev crashed : File
crashed = record { written = 123 ∷ 0 ∷ 125 ∷ 10 ∷ 123 ∷ 1 ∷ []; durable = [] }

open_persistent-Recovers_example :
    open_persistent parsers (some crashed)
    ≡ some (ok (recovered parsers ((entry_of 0, line) ∷ []) (torn half) crashed))
open_persistent-Recovers_example =
    open_persistent-Recovers parsers ((entry_of 0, line) ∷ []) (torn half) crashed (line-IsLine, tt)
      (refl, tt) (half-IsText, refl) refl

-- A log of one entry, with a parser that reads back what it prints.
abbrev observed : ℕ → LogEntry
observed n = from_evidence crates n [] [] 5

abbrev to_string : LogEntry → Option (List ℕ)
to_string e = some (123 ∷ e.seq ∷ 125 ∷ [])

abbrev reader : Parsers
reader = record { from_str = read; is_utf8 = λ l. true }
  where
    read : List ℕ → Option LogEntry
    read (a ∷ n ∷ b ∷ []) = some (observed n)
    read _ = none

abbrev on_disk : File
on_disk = record { written = 123 ∷ 0 ∷ 125 ∷ 10 ∷ []; durable = 123 ∷ 0 ∷ 125 ∷ 10 ∷ [] }

abbrev log_of_one : State
log_of_one = record {
  entries = observed 0 ∷ [];
  file = some on_disk;
  appends_since_sync = 0;
  fsync_policy = FsyncPolicy.always;
}

observed-IsText :
    (n : ℕ)
    → (n == 10) ≡ false
    → depth_fits 0 false false (123 ∷ n ∷ 125 ∷ []) ≡ true
    → IsText reader (123 ∷ n ∷ 125 ∷ [])
observed-IsText n other flat = record {
  one_line = (refl, (other, (refl, tt)));
  short = omega arith;
  rest = n ∷ 125 ∷ [];
  object = refl;
  utf8 = refl;
  flat = flat;
}

zero-IsLine : IsLine reader (observed 0, 123 ∷ 0 ∷ 125 ∷ [])
unfolding depth_fits is_opening is_closing
zero-IsLine = record { text = observed-IsText 0 refl refl; reads = refl }

one-IsLine : IsLine reader (observed 1, 123 ∷ 1 ∷ 125 ∷ [])
unfolding depth_fits is_opening is_closing
one-IsLine = record { text = observed-IsText 1 refl refl; reads = refl }

append_unsynced-Twice_example :
    ((append crates to_string log_of_one [] [] 5 sync_fails).1 ≡ err Error.transport)
    × Twice crates to_string reader log_of_one
        (append crates to_string log_of_one [] [] 5 sync_fails).0
        []
        []
        5
append_unsynced-Twice_example =
    append_unsynced-Twice crates to_string reader log_of_one ((observed 0, 123 ∷ 0 ∷ 125 ∷ []) ∷ [])
      on_disk [] [] 5 (123 ∷ 1 ∷ 125 ∷ []) [] [] 5 (123 ∷ 1 ∷ 125 ∷ []) refl refl refl refl
      (zero-IsLine, tt) (seq_0, tt) printed one-IsLine printed one-IsLine
  where
    seq_0 : (observed 0).seq ≡ 0
    seq_0 = unfold from_evidence in refl

    printed : to_string (observed 1) ≡ some (123 ∷ 1 ∷ 125 ∷ [])
    printed = unfold from_evidence in refl
