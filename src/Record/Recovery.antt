-- ===== src/Record/Recovery.antt =====
-- Recovery of one page: what RecordLogHandler wrote, RecordLogReplayer rebuilds.
use mathlib.Core.List.{append-nil, append_assoc}
use miniob4cqu_db_exp.Common.{
  ℕ, suc, ◌≤◌, ◌<◌, ◌≡◌, refl, sym, ap, false, Option, none, some, List, [], ◌∷◌, ◌++◌, length, ◌∙◌,
  Rc, leb, arith, inl, inr, All, All-append, le→leb, subst,
}
use miniob4cqu_db_exp.Record.Page.{Frame}
use miniob4cqu_db_exp.Record.Log.{
  Operation, insert, update, delete, LogEntry, Handler, insert_record, update_record, delete_record,
}
use miniob4cqu_db_exp.Record.View.{IsValid}
use miniob4cqu_db_exp.Record.Insert.{insert_record_lem}
use miniob4cqu_db_exp.Record.Change.{Logs, delete_record_lem, update_record_lem}
use miniob4cqu_db_exp.Record.Replay.{replay_operation, replay, replay_all, then_replay}

-- One call on an open page, with data of the record size and a slot below the capacity.
pub data Step (h : Handler) : Handler → Type 0 where
  insertion :
      {h' : Handler} (bytes : List ℕ) {rc : Rc} {slot : Option ℕ}
      → length bytes ≡ h.frame.page_header.record_real_size
      → insert_record bytes h ≡ some (rc, slot, h')
      → Step h h'
  overwriting :
      {h' : Handler} (slot : ℕ) (bytes : List ℕ) {rc : Rc}
      → length bytes ≡ h.frame.page_header.record_real_size
      → slot < h.frame.page_header.record_capacity
      → update_record slot bytes h ≡ (rc, h')
      → Step h h'
  removal :
      {h' : Handler} (slot : ℕ) {rc : Rc}
      → slot < h.frame.page_header.record_capacity
      → delete_record slot h ≡ some (rc, h')
      → Step h h'

pub data Run (h : Handler) : Handler → Type 0 where
  start : Run h h
  then_step : {m h' : Handler} → Run h m → Step m h' → Run h h'

frame_of_insert :
    (bytes : List ℕ) (h h' : Handler) (slot : ℕ)
    → insert_record bytes h ≡ some (Rc.success, some slot, h')
    → replay_operation (insert slot bytes) h.frame ≡ some (Rc.success, record h'.frame { lsn = 1 })
unfolding replay_operation insert_record
frame_of_insert bytes h h' slot e = ground arith

frame_of_delete :
    (h h' : Handler) (slot : ℕ)
    → delete_record slot h ≡ some (Rc.success, h')
    → replay_operation (delete slot) h.frame ≡ some (Rc.success, record h'.frame { lsn = 1 })
unfolding replay_operation delete_record
frame_of_delete h h' slot e = ground arith

frame_of_update :
    (bytes : List ℕ) (h h' : Handler) (slot : ℕ)
    → update_record slot bytes h ≡ (Rc.success, h')
    → replay_operation (update slot bytes) h.frame ≡ some (Rc.success, record h'.frame { lsn = 1 })
unfolding replay_operation update_record
frame_of_update bytes h h' slot e = ground arith

-- What a run has written to the log rebuilds its page.
pub record Trace (h h' : Handler) : Type 0 where
  pub written : List LogEntry
  pub logged : h'.log.entries ≡ h.log.entries ++ written
  pub replays : replay_all written h.frame ≡ some (Rc.success, h'.frame)
  pub covered : All (λ (e : LogEntry). e.lsn ≤ h'.frame.lsn) written
  pub grows : h.frame.lsn ≤ h'.frame.lsn
  pub behind : h'.frame.lsn ≤ h'.log.current_lsn
  pub valid : IsValid h'.frame

then_replay-success :
    {g : Frame} {c : Option (Rc × Frame)} (o : Option (Rc × Frame))
    (k l : Frame → Option (Rc × Frame))
    → then_replay o k ≡ some (Rc.success, g)
    → ((m : Frame) → k m ≡ some (Rc.success, g) → l m ≡ c)
    → then_replay o l ≡ c
then_replay-success none k l e h = cc
then_replay-success (some (Rc.success, m)) k l e h = h m e
then_replay-success (some (rc, m)) k l e h = cc

replay_all-append :
    (es fs : List LogEntry) (f g : Frame)
    → replay_all es f ≡ some (Rc.success, g)
    → replay_all (es ++ fs) f ≡ replay_all fs g
unfolding replay_all
replay_all-append [] fs f g e = ground arith
replay_all-append (x ∷ es) fs f g e =
    then_replay-success (replay x f) (replay_all es) (replay_all (es ++ fs)) e
      (λ m eq. replay_all-append es fs m g eq)

-- The entries that a frame already carries are skipped.
replay_all-covered :
    (es : List LogEntry) (f : Frame)
    → All (λ (e : LogEntry). e.lsn ≤ f.lsn) es
    → replay_all es f ≡ some (Rc.success, f)
unfolding replay_all replay
replay_all-covered [] f h = refl
replay_all-covered (e ∷ es) f h =
    rw (le→leb e.lsn f.lsn h.0, replay_all) (replay_all-covered es f h.1)

All-le_trans :
    (es : List LogEntry) (a b : ℕ)
    → a ≤ b
    → All (λ (e : LogEntry). e.lsn ≤ a) es
    → All (λ (e : LogEntry). e.lsn ≤ b) es
All-le_trans [] a b le h = tt
All-le_trans (e ∷ es) a b le h = (omega arith, All-le_trans es a b le h.1)

Trace-refl : (h : Handler) → IsValid h.frame → h.frame.lsn ≤ h.log.current_lsn → Trace h h
unfolding replay_all
Trace-refl h v le = record {
  written = [];
  logged = sym (append-nil h.log.entries);
  replays = refl;
  covered = tt;
  grows = omega arith;
  behind = le;
  valid = v;
}

Trace-trans : {h m k : Handler} → Trace h m → Trace m k → Trace h k
Trace-trans {h} {m} {k} s t = record {
  written = s.written ++ t.written;
  logged =
      t.logged
      ∙ ap (λ (x : List LogEntry). x ++ t.written) s.logged
      ∙ append_assoc h.log.entries s.written t.written;
  replays = replay_all-append s.written t.written h.frame m.frame s.replays ∙ t.replays;
  covered =
      All-append (λ (e : LogEntry). e.lsn ≤ k.frame.lsn) s.written t.written
        (All-le_trans s.written m.frame.lsn k.frame.lsn t.grows s.covered) t.covered;
  grows = omega (arith, s.grows, t.grows);
  behind = t.behind;
  valid = t.valid;
}

newer :
    (h : Handler)
    → h.frame.lsn ≤ h.log.current_lsn
    → leb (suc h.log.current_lsn) h.frame.lsn ≡ false
newer h le = ground arith

-- One logged operation.
Trace-one :
    (op : Operation) (h h' : Handler)
    → h.frame.lsn ≤ h.log.current_lsn
    → IsValid h'.frame
    → Logs op h h'
    → replay_operation op h.frame ≡ some (Rc.success, record h'.frame { lsn = 1 })
    → Trace h h'
unfolding replay_all replay
Trace-one op h h' le v logs e = record {
  written = record { lsn = suc h.log.current_lsn; operation = op } ∷ [];
  logged = logs.0;
  replays =
      rw (newer h le, e, then_replay, replay)
        (ap (λ (n : ℕ). some (Rc.success, record h'.frame { lsn = n })) (sym logs.1));
  covered = (omega (arith, logs.1), tt);
  grows = omega (arith, logs.1);
  behind = omega (arith, logs.1, logs.2);
  valid = v;
}

Step-Trace :
    {h h' : Handler} → IsValid h.frame → h.frame.lsn ≤ h.log.current_lsn → Step h h' → Trace h h'
Step-Trace {h} {h'} v le (insertion bytes {rc} {slot} whole e) =
    elim (insert_record_lem bytes h v whole) [
      | inl (full, eq) ↦ subst (Trace h) (cc (sym eq ∙ e)) (Trace-refl h v le)
      | inr (i, k, room, eq, ins) ↦ subst (Trace h) (cc (sym eq ∙ e)) (
          Trace-one (insert i bytes) h k le ins.holds.valid
            (ins.logged, ins.numbered.0, ins.numbered.1) (frame_of_insert bytes h k i eq))
    ]
Step-Trace {h} {h'} v le (overwriting slot bytes whole inside e) =
    elim (update_record_lem slot h v inside bytes whole) [
      | inl (free, eq) ↦ subst (Trace h) (cc (sym eq ∙ e)) (Trace-refl h v le)
      | inr (k, taken, eq, holds, logs) ↦ subst (Trace h) (cc (sym eq ∙ e)) (
          Trace-one (update slot bytes) h k le holds.valid logs (frame_of_update bytes h k slot eq))
    ]
Step-Trace {h} {h'} v le (removal slot inside e) = elim (delete_record_lem slot h v inside) [
  | inl (free, eq) ↦ subst (Trace h) (cc (sym eq ∙ e)) (Trace-refl h v le)
  | inr (k, taken, eq, frees, logs) ↦
      subst (Trace h) (cc (sym eq ∙ e))
        (Trace-one (delete slot) h k le frees.valid logs (frame_of_delete h k slot eq))
]

Run-Trace :
    {h h' : Handler} → IsValid h.frame → h.frame.lsn ≤ h.log.current_lsn → Run h h' → Trace h h'
Run-Trace {h} v le start = Trace-refl h v le
Run-Trace v le (then_step r st) =
    let t = Run-Trace v le r in Trace-trans t (Step-Trace t.valid t.behind st)

-- Recovery of a page. For a run from a valid page `h` through `m` to `k`, with the page's number
-- not ahead of the log: the entries that the run wrote, replayed over the page as it was at `m`,
-- wherever in the run that is, succeed and give exactly the page at `k`.
pub replay-Run :
    {h m k : Handler}
    → IsValid h.frame
    → h.frame.lsn ≤ h.log.current_lsn
    → Run h m
    → Run m k
    → (written : List LogEntry) × (k.log.entries ≡ h.log.entries ++ written)
      × (replay_all written m.frame ≡ some (Rc.success, k.frame))
unfolding Trace-trans
replay-Run {h} {m} {k} v le r s =
    let t = Run-Trace v le r in
    let u = Run-Trace t.valid t.behind s in
    (
      t.written ++ u.written,
      (Trace-trans t u).logged,
      replay_all-append t.written u.written m.frame m.frame
            (replay_all-covered t.written m.frame t.covered)
          ∙ u.replays,
    )
