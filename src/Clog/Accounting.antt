-- ===== src/Clog/Accounting.antt =====
-- The count of bytes of the buffer behind `flush` (storage/clog/log_buffer.cpp).
use miniob4cqu_db_exp.Common.{
  ℕ, ◌+◌, ◌≡◌, refl, sym, ap, ◌∙◌, ◌⊎◌, inl, inr, Rc, some, List, [], ◌∷◌, ◌++◌, arith, ltb, leb,
  pos, sub_ℕ, Bool-cases,
}
use miniob4cqu_db_exp.Clog.Entry.{LogEntry, total_size, entry_bytes}
use miniob4cqu_db_exp.Clog.File.{LogFileWriter, write}
use miniob4cqu_db_exp.Clog.Buffer.{
  LogEntryBuffer, flush, flush_from, after_write, is_valid, Flushed,
}

abbrev pub bytes_of : List LogEntry → ℕ
bytes_of [] = 0
bytes_of (e ∷ entries) = total_size e + bytes_of entries

write-cases :
    (e : LogEntry) (w : LogFileWriter) (go : LogFileWriter → Flushed)
    (stop : Rc → LogFileWriter → Flushed)
    → ((w' : LogFileWriter) × (after_write (write e w) go stop ≡ go w'))
      ⊎ ((rc : Rc) × (w' : LogFileWriter) × (after_write (write e w) go stop ≡ stop rc w'))
unfolding write
write-cases e w go stop = elim (Bool-cases (ltb w.end_lsn e.lsn)) [
  | inl full ↦ inr (Rc.log_file_full, w, rw full refl)
  | inr room ↦ elim (Bool-cases w.opened) [
    | inr closed ↦ inr (Rc.file_not_opened, w, rw (room, closed) refl)
    | inl open_file ↦ elim (Bool-cases (leb e.lsn w.last_lsn)) [
      | inl old ↦ inr (Rc.invalid_argument, w, rw (room, open_file, old) refl)
      | inr new ↦ inl (
        record w { file = w.file ++ entry_bytes e; last_lsn = e.lsn },
        rw (room, open_file, new) refl,
      )
    ]
  ]
]

taken_bytes :
    (e : LogEntry) (entries : List LogEntry)
    → sub_ℕ (pos (bytes_of (e ∷ entries))) (total_size e) ≡ pos (bytes_of entries)
taken_bytes e entries = ground arith

abbrev Counts : LogEntryBuffer → Type 0
Counts b =
    ((b.entries ≡ []) × (b.bytes ≡ pos 0))
    ⊎ ((e : LogEntry) × (rest : List LogEntry) × (b.entries ≡ e ∷ rest)
        × (b.bytes ≡ pos (bytes_of rest)))

flush_from-bytes :
    (entries : List LogEntry) (count : ℕ) (w : LogFileWriter) (b : LogEntryBuffer) {rc : Rc}
    {count' : ℕ} {w' : LogFileWriter} (b' : LogEntryBuffer)
    → b.bytes ≡ pos (bytes_of entries)
    → flush_from entries count w b ≡ some (rc, count', w', b')
    → Counts b'
unfolding flush_from
flush_from-bytes [] count w b b' h e = inl (ground (arith, e), ground (arith, e))
flush_from-bytes (x ∷ entries) count w b {rc = code} {count' = n} {w' = v} b' h e =
    elim (Bool-cases (is_valid x)) [
      | inr bad ↦ absurd (ground (arith, bad, e))
      | inl good ↦
          let taken : LogEntryBuffer = record b { bytes = sub_ℕ b.bytes (total_size x) } in
          let less : taken.bytes ≡ pos (bytes_of entries) = rw h (taken_bytes x entries) in
          let go = λ (w' : LogFileWriter).
            flush_from entries (count + 1) w' (record taken { flushed_lsn = x.lsn }) in
          let stop = λ (rc : Rc) (w' : LogFileWriter).
            some (rc, count, w', record taken { entries = x ∷ entries }) in
          let e' : after_write (write x w) go stop ≡ some (code, n, v, b') =
            rw (good, flush_from) at e in
          elim (write-cases x w go stop) [
            | inl (w₁, onward) ↦
                flush_from-bytes entries (count + 1) w₁ (record taken { flushed_lsn = x.lsn }) b'
                  less (sym onward ∙ e')
            | inr (rc₁, w₁, stopped) ↦
                let same : record taken { entries = x ∷ entries } ≡ b' =
                  ground (arith, sym stopped ∙ e') in
                inr (
                  x,
                  entries,
                  ground (arith, same),
                  sym (ap (λ (y : LogEntryBuffer). y.bytes) same) ∙ less,
                )
          ]
    ]

-- The count of bytes is not restored when a write fails. On a buffer whose count is the size of its
-- entries, a `flush` that fails no ASSERT leaves the count 0 if it leaves no entry, and else leaves
-- out the size of the first entry that it leaves.
pub flush-bytes :
    (w : LogFileWriter) (b : LogEntryBuffer) {rc : Rc} {count : ℕ} {w' : LogFileWriter}
    (b' : LogEntryBuffer)
    → b.bytes ≡ pos (bytes_of b.entries)
    → flush w b ≡ some (rc, count, w', b')
    → ((b'.entries ≡ []) × (b'.bytes ≡ pos 0))
      ⊎ ((e : LogEntry) × (rest : List LogEntry) × (b'.entries ≡ e ∷ rest)
          × (b'.bytes ≡ pos (bytes_of rest)))
unfolding flush
flush-bytes w b b' h e = flush_from-bytes b.entries 0 w b b' h e
