-- ===== src/Record/Replay.antt =====
-- RecordLogReplayer (record_log.cpp) for the log of one page, and recovery: the log, replayed over
-- any version of the page that was flushed, rebuilds the page.
use miniob4cqu_db_exp.Common.{
  ℕ, Option, none, some, List, [], ◌∷◌, Rc, succeeded, leb, if◌then◌else◌,
}
use miniob4cqu_db_exp.Record.Page.{Frame, format_page}
use miniob4cqu_db_exp.Record.Log.{
  Operation, init_page, insert, update, delete, LogEntry, Handler, insert_record, update_record,
  delete_record,
}

-- The handler that a replay opens over a frame. Its log handler is vacuous: what it would append is
-- dropped, and the number that the frame would take from it is overwritten by `replay`.
abbrev vacuous : Frame → Handler
vacuous f = record { frame = f; log = record { current_lsn = 0; entries = [] } }

-- The switch of `replay`: `replay_init_page`, `replay_insert`, `replay_delete`, `replay_update`.
unfoldable pub replay_operation : Operation → Frame → Option (Rc × Frame)
replay_operation (init_page record_size column_num index) f =
    some (Rc.success, format_page f record_size column_num index)
replay_operation (insert slot bytes) f = elim (insert_record bytes (vacuous f)) [
  | none ↦ none
  | some (rc, _, h) ↦ some (rc, h.frame)
]
replay_operation (update slot bytes) f =
    let (rc, h) = update_record slot bytes (vacuous f) in some (rc, h.frame)
replay_operation (delete slot) f = elim (delete_record slot (vacuous f)) [
  | none ↦ none
  | some (rc, h) ↦ some (rc, h.frame)
]

-- The end of `replay`: the entry's number is set only if its operation succeeded.
abbrev pub set_lsn_if : ℕ → Rc × Frame → Rc × Frame
set_lsn_if lsn (rc, f) = if succeeded rc then (rc, record f { lsn = lsn }) else (rc, f)

unfoldable pub replay : LogEntry → Frame → Option (Rc × Frame)
unfolding replay_operation
replay e f =
    if leb e.lsn f.lsn
    then some (Rc.success, f)
    else elim (replay_operation e.operation f) [ none ↦ none | some r ↦ some (set_lsn_if e.lsn r) ]

-- Go on from a frame if what came before succeeded.
abbrev pub then_replay : Option (Rc × Frame) → (Frame → Option (Rc × Frame)) → Option (Rc × Frame)
then_replay none k = none
then_replay (some (Rc.success, g)) k = k g
then_replay (some (rc, g)) k = some (rc, g)

-- The entries in order, up to the first that fails.
unfoldable pub replay_all : List LogEntry → Frame → Option (Rc × Frame)
replay_all [] f = some (Rc.success, f)
replay_all (e ∷ es) f = then_replay (replay e f) (replay_all es)
