-- ===== src/Clog/SkipTo.antt =====
-- LogFileReader::skip_to over the bytes of whole entries.
use mathlib.Core.List.{append_assoc}
use miniob4cqu_db_exp.Common.{
  ℕ, zero, suc, ◌≤◌, ◌<◌, ◌≡◌, refl, ◌∙◌, inl, inr, false, Rc, Option, some, List, [], ◌∷◌, ◌++◌,
  length, drop-length-append, All, arith, ltb, leb, if◌then◌else◌, Bool-cases, little_endian,
}
use miniob4cqu_db_exp.Clog.Entry.{
  LogEntry, header_size, header_of, header_bytes, entry_bytes, Fits, max_payload_size,
  length-header_bytes,
}
use miniob4cqu_db_exp.Clog.File.{readn, skip_header, skip_to}
use miniob4cqu_db_exp.Clog.Flush.{file_bytes}
use miniob4cqu_db_exp.Clog.ReadEntries.{readn-append, header_read}

-- The entries from the first one on that has a number of at least `start`.
abbrev pub from_lsn : ℕ → List LogEntry → List LogEntry
from_lsn start [] = []
from_lsn start (e ∷ entries) = if leb start e.lsn then e ∷ entries else from_lsn start entries

skip_header-one :
    (onward : List ℕ → Option (Rc × List ℕ)) (start : ℕ) (bytes : List ℕ) (e : LogEntry)
    (rest : List ℕ)
    → Fits e
    → skip_header start bytes (e.payload ++ rest) (header_of e) onward
      ≡ (if leb start e.lsn then some (Rc.success, bytes) else onward rest)
unfolding skip_header
skip_header-one onward start bytes e rest f =
    let fine : ltb max_payload_size (length e.payload) ≡ false = ground (arith, f.size) in
    ground (arith, fine, drop-length-append e.payload rest (length e.payload) refl)

skip_to-one :
    (fuel start : ℕ) (e : LogEntry) (rest : List ℕ)
    → Fits e
    → skip_to (suc fuel) start (entry_bytes e ++ rest) ≡ (
        if leb start e.lsn
        then some (Rc.success, entry_bytes e ++ rest)
        else skip_to fuel start rest)
unfolding skip_to entry_bytes little_endian
skip_to-one fuel start e rest f =
    let head = header_bytes (header_of e) in
    let first =
      readn-append header_size head (e.payload ++ rest) (length-header_bytes (header_of e)) in
    rw (append_assoc head e.payload rest, first, skip_to, header_read e f)
      (skip_header-one (skip_to fuel start) start (head ++ (e.payload ++ rest)) e rest f)

pub skip_to-file :
    (fuel start : ℕ) (entries : List LogEntry)
    → All Fits entries
    → length entries < fuel
    → skip_to fuel start (file_bytes entries)
      ≡ some (Rc.success, file_bytes (from_lsn start entries))
skip_to-file zero start entries f enough = absurd (omega arith)
skip_to-file (suc fuel) start [] f enough = unfold skip_to readn in refl
skip_to-file (suc fuel) start (e ∷ entries) f enough =
    skip_to-one fuel start e (file_bytes entries) f.0
    ∙ ground (arith, skip_to-file fuel start entries f.1)

-- From 0 on nothing is skipped.
pub skip_to-torn :
    (fuel : ℕ) (entries : List LogEntry) (e : LogEntry) (part : List ℕ)
    → All Fits entries
    → Fits e
    → 0 < fuel
    → skip_to fuel 0 (file_bytes entries ++ (header_bytes (header_of e) ++ part))
      ≡ some (Rc.success, file_bytes entries ++ (header_bytes (header_of e) ++ part))
unfolding skip_to skip_header
skip_to-torn zero entries e part f g h = absurd (omega arith)
skip_to-torn (suc fuel) [] e part f g h =
    rw
      (
        readn-append header_size (header_bytes (header_of e)) part
            (length-header_bytes (header_of e)),
        skip_to,
        header_read e g,
        skip_header,
      )
      (ground arith)
skip_to-torn (suc fuel) (d ∷ entries) e part f g h =
    let tail = header_bytes (header_of e) ++ part in
    rw (append_assoc (entry_bytes d) (file_bytes entries) tail)
      (skip_to-one fuel 0 d (file_bytes entries ++ tail) f.0 ∙ ground arith)

pub from_lsn-Fits :
    (start : ℕ) (entries : List LogEntry) → All Fits entries → All Fits (from_lsn start entries)
from_lsn-Fits start [] f = tt
from_lsn-Fits start (e ∷ entries) f = elim (Bool-cases (leb start e.lsn)) [
  | inl here ↦ rw here f
  | inr before ↦ rw before (from_lsn-Fits start entries f.1)
]

pub length-from_lsn :
    (start : ℕ) (entries : List LogEntry) → length (from_lsn start entries) ≤ length entries
length-from_lsn start [] = omega arith
length-from_lsn start (e ∷ entries) = ground (arith, length-from_lsn start entries)
