-- ===== src/Clog/Buffer.antt =====
-- LogEntryBuffer (log_buffer.cpp). One call is one step.
use miniob4cqu_db_exp.Common.{
  ℕ, suc, ◌+◌, Bool, true, false, ◌&&◌, Rc, Option, none, some, List, [], ◌∷◌, ◌++◌, length, ltb,
  if◌then◌else◌, ℤ, ℕ_le, add_ℕ, sub_ℕ,
}
use miniob4cqu_db_exp.Clog.Entry
use miniob4cqu_db_exp.Clog.Entry.{LogEntry, total_size}
use miniob4cqu_db_exp.Clog.File.{LogFileWriter, write}

pub record LogEntryBuffer : Type 0 where
  pub entries : List LogEntry
  pub bytes : ℤ
  pub current_lsn : ℕ
  pub flushed_lsn : ℕ
  pub max_bytes : ℕ

unfoldable pub init : ℕ → ℕ → LogEntryBuffer → LogEntryBuffer
init lsn max_bytes b = record b {
  current_lsn = lsn;
  flushed_lsn = lsn;
  max_bytes = if ltb 0 max_bytes then max_bytes else b.max_bytes;
}

-- `none` means that the call still waits for room. Else the code, the number of the entry, if it
-- has one, and the buffer.
unfoldable pub append : ℕ → List ℕ → LogEntryBuffer → Option (Rc × Option ℕ × LogEntryBuffer)
append module_id payload b =
    if ℕ_le b.max_bytes b.bytes then none else elim (Entry.init 0 module_id payload) [
      | none ↦ some (Rc.invalid_argument, none, b)
      | some e ↦
          let lsn = suc b.current_lsn in
          let numbered : LogEntry = record e { lsn = lsn } in
          some (
            Rc.success,
            some lsn,
            record b {
              entries = b.entries ++ numbered ∷ [];
              bytes = add_ℕ b.bytes (total_size numbered);
              current_lsn = lsn;
            },
          )
    ]

-- The ASSERTs of `flush` on the entry in front.
abbrev pub is_valid : LogEntry → Bool
is_valid e = ltb 0 e.lsn && ltb 0 (length e.payload)

abbrev pub Flushed : Type 0
Flushed = Option (Rc × ℕ × LogFileWriter × LogEntryBuffer)

-- Go on with the writer, or stop with the code of a failed write.
abbrev pub after_write :
    Rc × LogFileWriter → (LogFileWriter → Flushed) → (Rc → LogFileWriter → Flushed) → Flushed
after_write (Rc.success, w) go stop = go w
after_write (rc, w) go stop = stop rc w

-- The loop of `flush`, over the entries of the buffer; `none` is a failed ASSERT. What a failed
-- write leaves goes back to the front.
unfoldable pub flush_from : List LogEntry → ℕ → LogFileWriter → LogEntryBuffer → Flushed
unfolding write
flush_from [] count w b = some (Rc.success, count, w, record b { entries = [] })
flush_from (e ∷ entries) count w b = elim (is_valid e) [
  | false ↦ none
  | true ↦
      let taken : LogEntryBuffer = record b { bytes = sub_ℕ b.bytes (total_size e) } in
      after_write (write e w)
        (λ w'. flush_from entries (count + 1) w' (record taken { flushed_lsn = e.lsn }))
        (λ rc w'. some (rc, count, w', record taken { entries = e ∷ entries }))
]

unfoldable pub flush : LogFileWriter → LogEntryBuffer → Flushed
unfolding flush_from
flush w b = flush_from b.entries 0 w b
