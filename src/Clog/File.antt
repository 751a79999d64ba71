-- ===== src/Clog/File.antt =====
-- LogFileWriter and LogFileReader (log_file.cpp) over the bytes of a file. Reading and writing fail
-- at the end of the file only.
use miniob4cqu_db_exp.Common.{
  ℕ, zero, suc, Bool, true, false, Rc, succeeded, Option, none, some, List, [], ◌++◌, length, take,
  drop, ltb, leb, if◌then◌else◌,
}
use miniob4cqu_db_exp.Clog.Entry.{
  LogHeader, LogEntry, header_size, max_payload_size, header_of_bytes, entry_bytes,
}

pub record LogFileWriter : Type 0 where
  pub opened : Bool
  pub file : List ℕ
  pub last_lsn : ℕ
  pub end_lsn : ℕ

unfoldable pub write : LogEntry → LogFileWriter → Rc × LogFileWriter
write e w =
    if ltb w.end_lsn e.lsn
    then (Rc.log_file_full, w)
    else if w.opened
    then if leb e.lsn w.last_lsn
      then (Rc.invalid_argument, w)
      else (Rc.success, record w { file = w.file ++ entry_bytes e; last_lsn = e.lsn })
    else (Rc.file_not_opened, w)

-- `readn`: n bytes and those behind them; `none` is -1, the end of the file.
unfoldable pub readn : ℕ → List ℕ → Option (List ℕ × List ℕ)
readn n bytes = if ltb (length bytes) n then none else some (take n bytes, drop n bytes)

abbrev bad_size : LogHeader → Bool
bad_size h = ltb max_payload_size h.size

-- The rest of the loop of `skip_to`, behind a header: the position is kept at an entry that is not to
-- be skipped, else the loop goes on behind its data.
unfoldable pub skip_header :
    ℕ → List ℕ → List ℕ → LogHeader → (List ℕ → Option (Rc × List ℕ)) → Option (Rc × List ℕ)
skip_header start_lsn bytes rest header onward = elim (leb start_lsn header.lsn) [
  | true ↦ some (Rc.success, bytes)
  | false ↦ elim (bad_size header) [
    | true ↦ some (Rc.ioerr_read, rest)
    | false ↦ onward (drop header.size rest)
  ]
]

-- `skip_to`: the code and the bytes from the new position on; `none` means that the fuel ran out.
unfoldable pub skip_to : ℕ → ℕ → List ℕ → Option (Rc × List ℕ)
unfolding readn skip_header
skip_to zero start_lsn bytes = none
skip_to (suc fuel) start_lsn bytes = elim (readn header_size bytes) [
  | none ↦ some (Rc.success, [])
  | some (head, rest) ↦
      skip_header start_lsn bytes rest (header_of_bytes head) (skip_to fuel start_lsn)
]

module _ {ℓ} {S : Type ℓ} (callback : LogEntry → S → Rc × S) where
  -- An error of the callback ends the loop.
  abbrev pub after_callback : Rc × S → (S → Option (Rc × S)) → Option (Rc × S)
  after_callback (Rc.success, s) rest = rest s
  after_callback (rc, s) rest = some (rc, s)

  -- The rest of the loop of `iterate`, behind a header.
  unfoldable pub read_payload :
      LogHeader → List ℕ → S → (List ℕ → S → Option (Rc × S)) → Option (Rc × S)
  unfolding readn
  read_payload header rest s onward = elim (bad_size header) [
    | true ↦ some (Rc.ioerr_read, s)
    | false ↦ elim (readn header.size rest) [
      | none ↦ some (Rc.ioerr_read, s)
      | some (payload, rest') ↦
          after_callback
            (callback (record { lsn = header.lsn; module_id = header.module_id; payload = payload })
              s)
            (onward rest')
    ]
  ]

  -- The loop of `iterate`, with the callback's own state.
  unfoldable pub read_entries : ℕ → List ℕ → S → Option (Rc × S)
  unfolding readn read_payload
  read_entries zero bytes s = none
  read_entries (suc fuel) bytes s = elim (readn header_size bytes) [
    | none ↦ some (Rc.success, s)
    | some (head, rest) ↦ read_payload (header_of_bytes head) rest s (read_entries fuel)
  ]

  unfoldable pub iterate : ℕ → ℕ → List ℕ → S → Option (Rc × S)
  unfolding skip_to read_entries
  iterate fuel start_lsn bytes s = elim (skip_to fuel start_lsn bytes) [
    | none ↦ none
    | some (rc, position) ↦ if succeeded rc then read_entries fuel position s else some (rc, s)
  ]
