-- ===== src/Clog/Tests.antt =====
-- A buffer with two entries, and a file with room for one of them.
use miniob4cqu_db_exp.Common.{ℕ, ◌≡◌, refl, ◌⊎◌, true, Rc, some, List, [], ◌∷◌, ◌++◌, arith, pos}
use miniob4cqu_db_exp.Clog.Entry.{LogEntry, header_of, header_bytes, entry_bytes}
use miniob4cqu_db_exp.Clog.File.{LogFileWriter, write, iterate}
use miniob4cqu_db_exp.Clog.Buffer.{LogEntryBuffer, flush, flush_from}
use miniob4cqu_db_exp.Clog.Flush.{IsValid, IsFlushed, file_bytes, flush-IsFlushed}
use miniob4cqu_db_exp.Clog.Accounting.{bytes_of, flush-bytes}
use miniob4cqu_db_exp.Clog.ReadEntries.{run, then_ioerr}
use miniob4cqu_db_exp.Clog.SkipTo.{from_lsn}
use miniob4cqu_db_exp.Clog.Iterate.{iterate-file, iterate-torn}

abbrev entry_3 : LogEntry
entry_3 = record { lsn = 3; module_id = 2; payload = 70 ∷ 71 ∷ [] }

abbrev entry_4 : LogEntry
entry_4 = record { lsn = 4; module_id = 3; payload = 72 ∷ [] }

abbrev two_entries : LogEntryBuffer
two_entries = record {
  entries = entry_3 ∷ entry_4 ∷ [];
  bytes = pos 35;
  current_lsn = 4;
  flushed_lsn = 2;
  max_bytes = 100;
}

two_entries-IsValid : IsValid two_entries
two_entries-IsValid = record { numbered = omega arith; filled = omega arith }

abbrev writer : LogFileWriter
writer = record { opened = true; file = []; last_lsn = 2; end_lsn = 3 }

flush-IsFlushed_example :
    (rc : Rc) × (count : ℕ) × (w' : LogFileWriter) × (b' : LogEntryBuffer) × (flush writer
        two_entries
      ≡ some (rc, count, w', b'))
    × IsFlushed two_entries.entries 0 writer two_entries rc count w' b'
flush-IsFlushed_example = flush-IsFlushed writer two_entries two_entries-IsValid refl (omega arith)

abbrev after_flush : LogEntryBuffer
after_flush = record two_entries { entries = entry_4 ∷ []; bytes = pos 0; flushed_lsn = 3 }

one_flushed :
    flush writer two_entries
    ≡ some (
      Rc.log_file_full,
      1,
      record writer { file = entry_bytes entry_3; last_lsn = 3 },
      after_flush,
    )
unfolding flush flush_from write
one_flushed = refl

flush-bytes_example :
    ((after_flush.entries ≡ []) × (after_flush.bytes ≡ pos 0))
    ⊎ ((e : LogEntry) × (rest : List LogEntry) × (after_flush.entries ≡ e ∷ rest)
        × (after_flush.bytes ≡ pos (bytes_of rest)))
flush-bytes_example = flush-bytes writer two_entries after_flush refl one_flushed

abbrev collect : LogEntry → List LogEntry → Rc × List LogEntry
collect e seen = (Rc.success, seen ++ e ∷ [])

iterate-file_example :
    iterate collect 3 4 (file_bytes (entry_3 ∷ entry_4 ∷ [])) []
    ≡ some (run collect (from_lsn 4 (entry_3 ∷ entry_4 ∷ [])) [])
iterate-file_example =
    iterate-file collect 3 4 (entry_3 ∷ entry_4 ∷ []) []
      (
        record { lsn = omega arith; module_id = omega arith; size = omega arith },
        (record { lsn = omega arith; module_id = omega arith; size = omega arith }, tt),
      )
      (omega arith)

iterate-torn_example :
    iterate collect 2 0 (file_bytes (entry_3 ∷ []) ++ (header_bytes (header_of entry_4) ++ [])) []
    ≡ some (then_ioerr collect (run collect (entry_3 ∷ []) []))
iterate-torn_example =
    iterate-torn collect 2 (entry_3 ∷ []) entry_4 [] []
      (record { lsn = omega arith; module_id = omega arith; size = omega arith }, tt)
      (record { lsn = omega arith; module_id = omega arith; size = omega arith }) (omega arith)
      (omega arith)
