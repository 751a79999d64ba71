-- ===== src/Clog/Iterate.antt =====
-- What LogFileReader hands over of a file that LogFileWriter wrote.
use miniob4cqu_db_exp.Common.{ℕ, ◌<◌, ◌≡◌, Rc, some, List, ◌++◌, length, All, arith}
use miniob4cqu_db_exp.Clog.Entry.{LogEntry, header_of, header_bytes, Fits}
use miniob4cqu_db_exp.Clog.File.{iterate}
use miniob4cqu_db_exp.Clog.Flush.{file_bytes}
use miniob4cqu_db_exp.Clog.ReadEntries.{run, then_ioerr, read_entries-file, read_entries-torn}
use miniob4cqu_db_exp.Clog.SkipTo.{
  from_lsn, skip_to-file, skip_to-torn, from_lsn-Fits, length-from_lsn,
}

-- A file that holds whole entries, whose fields fit their types, is read back: `iterate`, with fuel
-- for one round more than there are entries, hands over, in order and as they were written, the
-- entries from the first one on that has a number of at least `start_lsn`, up to the first for which
-- the callback fails, and returns the callback's code.
pub iterate-file {ℓ} :
    {S : Type ℓ} (callback : LogEntry → S → Rc × S) (fuel start_lsn : ℕ) (entries : List LogEntry)
    (s : S)
    → All Fits entries
    → length entries < fuel
    → iterate callback fuel start_lsn (file_bytes entries) s
      ≡ some (run callback (from_lsn start_lsn entries) s)
unfolding iterate
iterate-file callback fuel start_lsn entries s f enough =
    rw (skip_to-file fuel start_lsn entries f enough, iterate)
      (read_entries-file callback fuel (from_lsn start_lsn entries) s
        (from_lsn-Fits start_lsn entries f) (omega (arith, length-from_lsn start_lsn entries)))

-- A file whose last entry was cut off inside its data is not read to the end: after whole entries,
-- `iterate` from 0 hands over the whole entries, up to the first for which the callback fails, and
-- then fails with IOERR_READ. The fields of all entries fit their types, and there is fuel for one
-- round more than there are whole entries.
pub iterate-torn {ℓ} :
    {S : Type ℓ} (callback : LogEntry → S → Rc × S) (fuel : ℕ) (entries : List LogEntry)
    (e : LogEntry) (part : List ℕ) (s : S)
    → All Fits entries
    → Fits e
    → length part < length e.payload
    → length entries < fuel
    → iterate callback fuel 0 (file_bytes entries ++ (header_bytes (header_of e) ++ part)) s
      ≡ some (then_ioerr callback (run callback entries s))
unfolding iterate
iterate-torn callback fuel entries e part s f g short enough =
    rw (skip_to-torn fuel entries e part f g (omega arith), iterate)
      (read_entries-torn callback fuel entries e part s f g short enough)
