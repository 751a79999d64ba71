-- ===== src/Clog/Flush.antt =====
-- The numbers of the entries in the buffer, and what `flush` writes
-- (storage/clog/log_buffer.cpp).
use mathlib.Core.List.{append_assoc, append-nil}
use miniob4cqu_db_exp.Common.{
  ℕ, suc, ◌+◌, ◌≤◌, ◌<◌, ◌≡◌, refl, sym, ap, subst, ◌∙◌, ◌⊎◌, inl, inr, true, Rc, some, List, [],
  ◌∷◌, ◌++◌, length, All, arith, ltb, sub_ℕ, Bool-cases,
}
use miniob4cqu_db_exp.Clog.Entry.{LogEntry, total_size, entry_bytes}
use miniob4cqu_db_exp.Clog.File.{LogFileWriter, write}
use miniob4cqu_db_exp.Clog.Buffer.{LogEntryBuffer, flush, flush_from, is_valid, Flushed}

-- The entries have the numbers behind `before`, one after the other, up to `last`.
abbrev pub IsNumbered : ℕ → List LogEntry → ℕ → Type 0
IsNumbered before [] last = before ≡ last
IsNumbered before (e ∷ entries) last = (e.lsn ≡ suc before) × IsNumbered (suc before) entries last

abbrev pub file_bytes : List LogEntry → List ℕ
file_bytes [] = []
file_bytes (e ∷ entries) = entry_bytes e ++ file_bytes entries

abbrev pub HasData : LogEntry → Type 0
HasData e = 0 < length e.payload

pub record IsValid (b : LogEntryBuffer) : Type 0 where
  pub numbered : IsNumbered b.flushed_lsn b.entries b.current_lsn
  pub filled : All HasData b.entries

-- What a `flush` of the entries did: it wrote some of them, in order, and kept the others.
pub record IsFlushed (entries : List LogEntry) (count : ℕ) (w : LogFileWriter) (b : LogEntryBuffer)
    (rc : Rc) (count' : ℕ) (w' : LogFileWriter) (b' : LogEntryBuffer) : Type 0 where
  pub written : List LogEntry
  pub split : entries ≡ written ++ b'.entries
  pub filed : w'.file ≡ w.file ++ file_bytes written
  pub counted : count' ≡ count + length written
  pub within : All (λ (e : LogEntry). e.lsn ≤ w.end_lsn) written
  pub numbered : IsNumbered b'.flushed_lsn b'.entries b.current_lsn
  pub current : b'.current_lsn ≡ b.current_lsn
  pub ended :
      ((rc ≡ Rc.success) × (b'.entries ≡ []))
      ⊎ ((rc ≡ Rc.log_file_full)
          × (e : LogEntry) × (rest : List LogEntry) × (b'.entries ≡ e ∷ rest)
          × (w.end_lsn < e.lsn))

write-full :
    (e : LogEntry) (w : LogFileWriter) → w.end_lsn < e.lsn → write e w ≡ (Rc.log_file_full, w)
unfolding write
write-full e w h = ground arith

write-next :
    (e : LogEntry) (w : LogFileWriter)
    → e.lsn ≤ w.end_lsn
    → w.opened ≡ true
    → w.last_lsn < e.lsn
    → write e w ≡ (Rc.success, record w { file = w.file ++ entry_bytes e; last_lsn = e.lsn })
unfolding write
write-next e w a b c = ground arith

valid-next : (e : LogEntry) (before : ℕ) → e.lsn ≡ suc before → HasData e → is_valid e ≡ true
valid-next e before h k = ground arith

flush_from-full :
    (e : LogEntry) (entries : List LogEntry) (count : ℕ) (w : LogFileWriter) (b : LogEntryBuffer)
    → is_valid e ≡ true
    → w.end_lsn < e.lsn
    → flush_from (e ∷ entries) count w b
      ≡ some (
        Rc.log_file_full,
        count,
        w,
        record b { bytes = sub_ℕ b.bytes (total_size e); entries = e ∷ entries },
      )
unfolding flush_from
flush_from-full e entries count w b h k = rw (h, write-full e w k, flush_from) refl

flush_from-next :
    (e : LogEntry) (entries : List LogEntry) (count : ℕ) (w : LogFileWriter) (b : LogEntryBuffer)
    → is_valid e ≡ true
    → e.lsn ≤ w.end_lsn
    → w.opened ≡ true
    → w.last_lsn < e.lsn
    → flush_from (e ∷ entries) count w b
      ≡ flush_from entries
          (count + 1)
          (record w { file = w.file ++ entry_bytes e; last_lsn = e.lsn })
          (record b { bytes = sub_ℕ b.bytes (total_size e); flushed_lsn = e.lsn })
unfolding flush_from
flush_from-next e entries count w b h i j k = rw (h, write-next e w i j k, flush_from) refl

-- The outcome of a loop, by its code, count, writer and buffer.
abbrev Flushes : List LogEntry → ℕ → LogFileWriter → LogEntryBuffer → Flushed → Type 0
Flushes entries count w b outcome =
    (rc : Rc) × (count' : ℕ) × (w' : LogFileWriter) × (b' : LogEntryBuffer) × (outcome
      ≡ some (rc, count', w', b'))
    × IsFlushed entries count w b rc count' w' b'

flush_from-IsFlushed :
    (entries : List LogEntry) (count : ℕ) (w : LogFileWriter) (b : LogEntryBuffer)
    → IsNumbered b.flushed_lsn entries b.current_lsn
    → All HasData entries
    → w.opened ≡ true
    → w.last_lsn ≤ b.flushed_lsn
    → Flushes entries count w b (flush_from entries count w b)
flush_from-IsFlushed [] count w b n d o l = (
  Rc.success,
  count,
  w,
  record b { entries = [] },
  unfold flush_from in refl,
  record {
    written = [];
    split = refl;
    filed = sym (append-nil w.file);
    counted = omega arith;
    within = tt;
    numbered = n;
    current = refl;
    ended = inl (refl, refl);
  },
)
flush_from-IsFlushed (e ∷ entries) count w b n d o l = elim (Bool-cases (ltb w.end_lsn e.lsn)) [
  | inl past ↦ (
    Rc.log_file_full,
    count,
    w,
    record b { bytes = sub_ℕ b.bytes (total_size e); entries = e ∷ entries },
    flush_from-full e entries count w b (valid-next e b.flushed_lsn n.0 d.0) (ground arith),
    record {
      written = [];
      split = refl;
      filed = sym (append-nil w.file);
      counted = omega arith;
      within = tt;
      numbered = n;
      current = refl;
      ended = inr (refl, e, entries, refl, ground arith);
    },
  )
  | inr room ↦
      let w₁ : LogFileWriter = record w { file = w.file ++ entry_bytes e; last_lsn = e.lsn } in
      let b₁ : LogEntryBuffer = record b {
        bytes = sub_ℕ b.bytes (total_size e);
        flushed_lsn = e.lsn;
      } in
      let n₁ : IsNumbered e.lsn entries b.current_lsn =
        subst (λ (m : ℕ). IsNumbered m entries b.current_lsn) (sym n.0) n.1 in
      let (rc, count', w', b', runs, f) =
        flush_from-IsFlushed entries (count + 1) w₁ b₁ n₁ d.1 o (omega arith) in
      (
        rc,
        count',
        w',
        b',
        flush_from-next e entries count w b (valid-next e b.flushed_lsn n.0 d.0) (ground arith) o
              (omega (arith, n.0))
            ∙ runs,
        record {
          written = e ∷ f.written;
          split = ap (◌∷◌ e) f.split;
          filed = f.filed ∙ append_assoc w.file (entry_bytes e) (file_bytes f.written);
          counted = omega (arith, f.counted);
          within = (ground arith, f.within);
          numbered = f.numbered;
          current = f.current;
          ended = f.ended;
        },
      )
]

-- On a buffer whose entries are numbered one after the other and hold data, with an open file that
-- has no later entry: `flush` fails no ASSERT. It writes entries from the front, none above the
-- file's last number, to the end of the file, and counts them; it keeps the others in order, under
-- their numbers; it ends with success when none is left, and with LOG_FILE_FULL when the next one
-- has a number above the file's last.
pub flush-IsFlushed :
    (w : LogFileWriter) (b : LogEntryBuffer)
    → IsValid b
    → w.opened ≡ true
    → w.last_lsn ≤ b.flushed_lsn
    → (rc : Rc) × (count : ℕ) × (w' : LogFileWriter) × (b' : LogEntryBuffer) × (flush w b
        ≡ some (rc, count, w', b'))
      × IsFlushed b.entries 0 w b rc count w' b'
unfolding flush
flush-IsFlushed w b v o l = flush_from-IsFlushed b.entries 0 w b v.numbered v.filled o l
