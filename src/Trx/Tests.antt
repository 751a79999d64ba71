-- ===== src/Trx/Tests.antt =====
-- Transactions on a concrete table: a list of slots, where a record's RID is its index.
use miniob4cqu_db_exp.Common.{
  ℕ, ◌<◌, ◌≤◌, ◌≡◌, ◌⊎◌, inr, refl, true, false, Option, none, some, List, [], ◌∷◌, ◌++◌, Rc,
  length, get_or, set, arith, pos, neg, All,
}
use miniob4cqu_db_exp.Trx.Table.{Row, TableStore}
use miniob4cqu_db_exp.Trx.Mvcc.{
  Trx, delete, read_only, visit_record, max_trx_id, start_if_need, delete_updater,
  commit_delete_updater, rollback_updater, delete_record, delete_visited, commit, commit_operations,
  commit_operation, visited,
}
use miniob4cqu_db_exp.Trx.Visibility.{deleting, deleted_at, reads_stay}
use miniob4cqu_db_exp.Trx.Resurrect.{ended, rollback_resurrects}
use miniob4cqu_db_exp.Trx.Recover
use miniob4cqu_db_exp.Trx.Recover.{
  LogEntry, recover_unchanged, start-replay_all, commit_number_reused, fresh_replayer, recover,
  trx_of,
}

abbrev Slots : Type 0
Slots = List (Option Row)

abbrev push : Slots → Row → Rc ⊎ (ℕ × Slots)
push s r = inr (length s, s ++ some r ∷ [])

abbrev slots : TableStore
slots = record {
  State = Slots;
  lookup = λ s i. get_or s i none;
  insert = push;
  update = λ s i r. set s i (some r);
  remove = λ s i. set s i none;
}

-- A record that transaction 1 committed.
abbrev old_row : Row
old_row = record { begin_xid = pos 1; end_xid = pos max_trx_id; content = 70 }

abbrev trx_5 : Trx
trx_5 = record { trx_id = 5; started = true; recovering = false; operations = [] }

reads_stay_example :
    (visit_record 6 read_only (deleting 5 old_row) ≡ Rc.success)
    × (visit_record 6 read_only (deleted_at 7 old_row) ≡ Rc.success)
unfolding visit_record
reads_stay_example =
    reads_stay 5 6 7 old_row (omega arith) (omega arith) (omega arith) (omega arith) (ground arith)
      refl refl

-- Transaction 5 inserts a record behind the old one, and deletes the old one.
abbrev before : Slots
before = some old_row ∷ []

abbrev new_row : Row
new_row = record { begin_xid = neg 5; end_xid = pos max_trx_id; content = 71 }

abbrev after : Slots
after = some (record old_row { end_xid = neg 5 }) ∷ some new_row ∷ []

abbrev log : List LogEntry
log = LogEntry.insert_record 5 1 ∷ LogEntry.delete_record 5 0 ∷ []

recover_unchanged_example : recover slots log fresh_replayer after ≡ some after
recover_unchanged_example = recover_unchanged slots log after

abbrev idle : Trx
idle = record trx_5 { trx_id = 0; started = false }

start-replay_all_example :
    All
      (λ (e : LogEntry).
        trx_of e
        < (start_if_need (Recover.replay_all log fresh_replayer).current_trx_id idle).1.trx_id)
      log
    × ((start_if_need (Recover.replay_all log fresh_replayer).current_trx_id idle).1.trx_id
        ≤ max_trx_id)
start-replay_all_example = start-replay_all log idle refl (omega arith, (omega arith, tt))

commit_number_reused_example :
    ((start_if_need
        (Recover.replay_all (log ++ LogEntry.commit 5 6 ∷ []) fresh_replayer).current_trx_id
        idle).1.trx_id
      ≡ 6)
    × (visit_record
          (start_if_need
            (Recover.replay_all (log ++ LogEntry.commit 5 6 ∷ []) fresh_replayer).current_trx_id
            idle).1.trx_id
          read_only
          (record { begin_xid = pos 1; end_xid = pos 6; content = 70 })
        ≡ Rc.success)
commit_number_reused_example =
    commit_number_reused log 5 1 70 idle (omega arith) refl (omega arith) (omega arith)

-- A record was deleted under the number 7; transaction 5 is older.
rollback_resurrects_example :
    (marked : Row) × (delete_updater trx_5 (ended 1 7 70) ≡ (Rc.success, marked))
    × (rollback_updater trx_5 marked ≡ some (ended 1 max_trx_id 70))
    × (visit_record 9 read_only (ended 1 7 70) ≡ Rc.record_invisible)
    × (visit_record 9 read_only (ended 1 max_trx_id 70) ≡ Rc.success)
rollback_resurrects_example =
    rollback_resurrects 1 7 70 9 trx_5 refl (omega arith) (omega arith) (omega arith) (omega arith)
      (omega arith)

-- Transaction 5 deletes the record, and commits.
abbrev deleted : Option (Rc × Trx × Slots)
deleted = delete_record slots Rc.success 0 trx_5 (some old_row ∷ [])

abbrev trx_5_done : Trx
trx_5_done = record trx_5 { operations = delete 0 ∷ [] }

deleted-marked :
    deleted ≡ some (Rc.success, trx_5_done, some (record old_row { end_xid = neg 5 }) ∷ [])
unfolding delete_record delete_visited delete_updater visit_record
deleted-marked = refl

committed :
    commit slots Rc.success 8 trx_5_done (some (record old_row { end_xid = neg 5 }) ∷ [])
    ≡ some (
      Rc.success,
      9,
      record trx_5 { started = false },
      some (record old_row { end_xid = pos 9 }) ∷ [],
    )
unfolding commit commit_operations commit_operation visited commit_delete_updater
committed = refl
