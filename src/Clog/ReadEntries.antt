-- ===== src/Clog/ReadEntries.antt =====
-- The entries that LogFileReader reads from the bytes of whole entries, and of a torn one.
use mathlib.Core.List.{append_assoc}
use miniob4cqu_db_exp.Common.{
  ℕ, zero, suc, ◌<◌, ◌≡◌, refl, ap, ◌∙◌, true, false, Rc, Option, some, List, [], ◌∷◌, ◌++◌, length,
  length-append, take-length-append, drop-length-append, All, arith, ltb,
}
use miniob4cqu_db_exp.Clog.Entry.{
  LogEntry, header_size, header_of, header_bytes, entry_bytes, Fits, max_payload_size,
  header_of_bytes, length-header_bytes, header_of_bytes-header_bytes,
}
use miniob4cqu_db_exp.Clog.File.{readn, read_payload, read_entries, after_callback}
use miniob4cqu_db_exp.Clog.Flush.{file_bytes}

pub readn-append : (n : ℕ) (s t : List ℕ) → length s ≡ n → readn n (s ++ t) ≡ some (s, t)
unfolding readn
readn-append n s t h =
    let enough : ltb (length (s ++ t)) n ≡ false = ground (arith, length-append s t) in
    rw (enough, take-length-append s t n h, drop-length-append s t n h) refl

-- The header of an entry is read back.
pub header_read :
    (e : LogEntry) → Fits e → header_of_bytes (header_bytes (header_of e)) ≡ header_of e
header_read e f =
    header_of_bytes-header_bytes (header_of e) f.lsn (omega (arith, f.size)) f.module_id

module _ {ℓ} {S : Type ℓ} (callback : LogEntry → S → Rc × S) where
  abbrev pub after : Rc × S → (S → Rc × S) → Rc × S
  after (Rc.success, s) rest = rest s
  after (rc, s) rest = (rc, s)

  -- The callback on the entries in order, up to the first error.
  abbrev pub run : List LogEntry → S → Rc × S
  run [] s = (Rc.success, s)
  run (e ∷ entries) s = after (callback e s) (run entries)

  continued :
      (r : Rc × S) (rest : S → Rc × S) (rest' : S → Option (Rc × S))
      → ((s : S) → rest' s ≡ some (rest s))
      → after_callback callback r rest' ≡ some (after r rest)
  continued (Rc.success, s) rest rest' h = h s
  continued (rc, s) rest rest' h = refl

  read_payload-one :
      (onward : List ℕ → S → Option (Rc × S)) (e : LogEntry) (rest : List ℕ) (s : S)
      → Fits e
      → read_payload callback (header_of e) (e.payload ++ rest) s onward
        ≡ after_callback callback (callback e s) (onward rest)
  unfolding read_payload
  read_payload-one onward e rest s f =
      let fine : ltb max_payload_size (length e.payload) ≡ false = ground (arith, f.size) in
      rw (fine, read_payload, readn-append (length e.payload) e.payload rest refl) refl

  read_payload-cut :
      (onward : List ℕ → S → Option (Rc × S)) (e : LogEntry) (part : List ℕ) (s : S)
      → Fits e
      → length part < length e.payload
      → read_payload callback (header_of e) part s onward ≡ some (Rc.ioerr_read, s)
  unfolding read_payload readn
  read_payload-cut onward e part s f short =
      let fine : ltb max_payload_size (length e.payload) ≡ false = ground (arith, f.size) in
      let over : ltb (length part) (length e.payload) ≡ true = ground arith in
      rw (fine, over, read_payload, readn) refl

  read_entries-one :
      (fuel : ℕ) (e : LogEntry) (rest : List ℕ) (s : S)
      → Fits e
      → read_entries callback (suc fuel) (entry_bytes e ++ rest) s
        ≡ after_callback callback (callback e s) (read_entries callback fuel rest)
  unfolding read_entries entry_bytes
  read_entries-one fuel e rest s f =
      let head = header_bytes (header_of e) in
      let first =
        readn-append header_size head (e.payload ++ rest) (length-header_bytes (header_of e)) in
      rw (append_assoc head e.payload rest, first, read_entries, header_read e f)
        (read_payload-one (read_entries callback fuel) e rest s f)

  read_entries-cut :
      (fuel : ℕ) (e : LogEntry) (part : List ℕ) (s : S)
      → Fits e
      → length part < length e.payload
      → read_entries callback (suc fuel) (header_bytes (header_of e) ++ part) s
        ≡ some (Rc.ioerr_read, s)
  unfolding read_entries
  read_entries-cut fuel e part s f short =
      let head = header_bytes (header_of e) in
      let first = readn-append header_size head part (length-header_bytes (header_of e)) in
      rw (first, read_entries, header_read e f)
        (read_payload-cut (read_entries callback fuel) e part s f short)

  pub read_entries-file :
      (fuel : ℕ) (entries : List LogEntry) (s : S)
      → All Fits entries
      → length entries < fuel
      → read_entries callback fuel (file_bytes entries) s ≡ some (run entries s)
  read_entries-file zero entries s f enough = absurd (omega arith)
  read_entries-file (suc fuel) [] s f enough = unfold read_entries readn in refl
  read_entries-file (suc fuel) (e ∷ entries) s f enough =
      read_entries-one fuel e (file_bytes entries) s f.0
      ∙ continued (callback e s) (run entries) (read_entries callback fuel (file_bytes entries))
          (λ s'. read_entries-file fuel entries s' f.1 (omega arith))

  -- What the callback has reached, and the failure of the read behind it.
  abbrev pub then_ioerr : Rc × S → Rc × S
  then_ioerr (Rc.success, s) = (Rc.ioerr_read, s)
  then_ioerr (rc, s) = (rc, s)

  then_after :
      (r : Rc × S) (rest : S → Rc × S)
      → after r (λ s. then_ioerr (rest s)) ≡ then_ioerr (after r rest)
  then_after (Rc.success, s) rest = refl
  then_after (rc, s) rest = refl

  pub read_entries-torn :
      (fuel : ℕ) (entries : List LogEntry) (e : LogEntry) (part : List ℕ) (s : S)
      → All Fits entries
      → Fits e
      → length part < length e.payload
      → length entries < fuel
      → read_entries callback fuel (file_bytes entries ++ (header_bytes (header_of e) ++ part)) s
        ≡ some (then_ioerr (run entries s))
  read_entries-torn zero entries e part s f g short enough = absurd (omega arith)
  read_entries-torn (suc fuel) [] e part s f g short enough = read_entries-cut fuel e part s g short
  read_entries-torn (suc fuel) (d ∷ entries) e part s f g short enough =
      let tail = header_bytes (header_of e) ++ part in
      ap (λ (bytes : List ℕ). read_entries callback (suc fuel) bytes s)
        (append_assoc (entry_bytes d) (file_bytes entries) tail)
      ∙ read_entries-one fuel d (file_bytes entries ++ tail) s f.0
      ∙ continued (callback d s) (λ s'. then_ioerr (run entries s'))
          (read_entries callback fuel (file_bytes entries ++ tail))
          (λ s'. read_entries-torn fuel entries e part s' f.1 g short (omega arith))
      ∙ ap some (then_after (callback d s) (run entries))
