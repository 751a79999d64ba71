-- ===== src/Trx/Mvcc.antt =====
-- MvccTrx (mvcc_trx.cpp): a method takes the transaction and the table and returns the code and
-- both; `none` is a failed ASSERT. `log_rc` is the code of the append to the transaction log. The
-- log's methods (mvcc_trx_log.cpp) ASSERT that the transaction's number is positive.
use miniob4cqu_db_exp.Common.{
  ℕ, suc, ◌-◌, ◌^◌, Bool, true, false, not, ◌&&◌, ◌||◌, Option, none, some, List, [], ◌∷◌, ◌++◌,
  reverse, Rc, succeeded, if◌then◌else◌, pos, neg, is_positive, is_negative, eq_ℤ, le_ℕ, ℕ_le, ltb,
  inl, inr,
}
use miniob4cqu_db_exp.Trx.Table.{Row, TableStore}

pub data ReadWriteMode : Type 0 where
  read_only read_write : ReadWriteMode

pub data Operation : Type 0 where
  insert delete : ℕ → Operation

pub record Trx : Type 0 where
  pub trx_id : ℕ
  pub started : Bool
  pub recovering : Bool
  pub operations : List Operation

-- MvccTrxKit: the counter of transaction numbers.
abbrev pub max_trx_id : ℕ
max_trx_id = 2 ^ 31 - 1

-- A record whose end is negative, by the mode and by whether the end is this transaction's.
abbrev in_deletion : ReadWriteMode → Bool → Rc
in_deletion mode true = Rc.record_invisible
in_deletion read_only false = Rc.success
in_deletion read_write false = Rc.locked_concurrency_conflict

-- The test of one record's transaction fields.
unfoldable pub visit_record : ℕ → ReadWriteMode → Row → Rc
visit_record trx_id mode r =
    if is_positive r.begin_xid && is_positive r.end_xid
    then if le_ℕ r.begin_xid trx_id && ℕ_le trx_id r.end_xid
      then Rc.success
      else Rc.record_invisible
    else if is_negative r.begin_xid
    then if eq_ℤ r.begin_xid (neg trx_id) then Rc.success else Rc.record_invisible
    else if is_negative r.end_xid
    then in_deletion mode (eq_ℤ r.end_xid (neg trx_id))
    else Rc.success

-- `next_trx_id` and `start_if_need`, with the kit's counter. It is an int32_t, so this is the code
-- for a counter below `max_trx_id`, behind which it wraps around.
unfoldable pub start_if_need : ℕ → Trx → ℕ × Trx
start_if_need current t =
    if t.started
    then (current, t)
    else (suc current, record t { trx_id = suc current; started = true })

-- The updaters that the methods pass to `visit_record` of the table, each on one record.

abbrev pub marked_by : Trx → Row → Rc → Rc × Row
marked_by t r Rc.success = (Rc.success, record r { end_xid = neg t.trx_id })
marked_by t r rc = (rc, r)

-- That of `delete_record`: its `delete_result`, and the record as it leaves it.
unfoldable pub delete_updater : Trx → Row → Rc × Row
unfolding visit_record
delete_updater t r = marked_by t r (visit_record t.trx_id read_write r)

-- Those of `commit_with_trx_id`.
unfoldable pub commit_insert_updater : Trx → ℕ → Row → Option Row
commit_insert_updater t commit_xid r =
    if eq_ℤ r.begin_xid (neg t.trx_id) && not t.recovering
    then some (record r { begin_xid = pos commit_xid })
    else none

unfoldable pub commit_delete_updater : Trx → ℕ → Row → Option Row
commit_delete_updater t commit_xid r =
    if eq_ℤ r.end_xid (neg t.trx_id) then some (record r { end_xid = pos commit_xid }) else none

-- That of `rollback`.
unfoldable pub rollback_updater : Trx → Row → Option Row
rollback_updater t r =
    if eq_ℤ r.end_xid (neg t.trx_id)
    then some (record r { end_xid = pos max_trx_id })
    else if t.recovering
    then some r
    else none

module _ (T : TableStore) where
  open T use {State, lookup, update, remove}

  -- The code, the RID of the new record, the transaction and the table.
  unfoldable pub insert_record : Rc → ℕ → Trx → State → Option (Rc × Option ℕ × Trx × State)
  insert_record log_rc content t s =
      elim (T.insert s
        (record { begin_xid = neg t.trx_id; end_xid = pos max_trx_id; content = content })) [
          | inl rc ↦ some (rc, none, t, s)
          | inr (rid, s') ↦
              if ltb 0 t.trx_id && succeeded log_rc
              then some (
                Rc.success,
                some rid,
                record t { operations = t.operations ++ insert rid ∷ [] },
                s',
              )
              else none
        ]

  -- The rest of `delete_record`, by what its updater gives.
  unfoldable pub delete_visited : Rc → ℕ → Trx → State → Rc × Row → Option (Rc × Trx × State)
  delete_visited log_rc rid t s (Rc.success, r) =
      if ltb 0 t.trx_id && succeeded log_rc
      then some
          (Rc.success, record t { operations = t.operations ++ delete rid ∷ [] }, update s rid r)
      else none
  delete_visited log_rc rid t s (rc, r) = some (rc, t, s)

  unfoldable pub delete_record : Rc → ℕ → Trx → State → Option (Rc × Trx × State)
  unfolding delete_visited delete_updater
  delete_record log_rc rid t s = elim (lookup s rid) [
    | none ↦ some (Rc.record_not_exist, t, s)
    | some r ↦ delete_visited log_rc rid t s (delete_updater t r)
  ]

  -- `visit_record` of the table, whose code is ASSERTed, with an updater that may ASSERT.
  unfoldable pub visited : ℕ → (Row → Option Row) → State → Option State
  visited rid updater s = elim (lookup s rid) [
    | none ↦ none
    | some r ↦ elim (updater r) [ none ↦ none | some r' ↦ some (update s rid r') ]
  ]

  -- One operation of `commit_with_trx_id`.
  unfoldable pub commit_operation : Trx → ℕ → Operation → State → Option State
  unfolding visited commit_insert_updater commit_delete_updater
  commit_operation t commit_xid (insert rid) s = visited rid (commit_insert_updater t commit_xid) s
  commit_operation t commit_xid (delete rid) s = visited rid (commit_delete_updater t commit_xid) s

  unfoldable pub commit_operations : Trx → ℕ → List Operation → State → Option State
  unfolding commit_operation
  commit_operations t commit_xid [] s = some s
  commit_operations t commit_xid (op ∷ ops) s = elim (commit_operation t commit_xid op s) [
    | none ↦ none
    | some s' ↦ commit_operations t commit_xid ops s'
  ]

  -- `commit`: the kit's counter gives the commit number. The code of the append, or that of the last
  -- visit, which is success, is returned with the counter, the transaction and the table.
  unfoldable pub commit : Rc → ℕ → Trx → State → Option (Rc × ℕ × Trx × State)
  unfolding commit_operations
  commit log_rc current t s = elim (commit_operations t (suc current) t.operations s) [
    | none ↦ none
    | some s' ↦
        if t.recovering || (ltb 0 t.trx_id && ltb t.trx_id (suc current))
        then some (
          if t.recovering then Rc.success else log_rc,
          suc current,
          record t { started = false; operations = [] },
          s',
        )
        else none
  ]

  -- One operation of `rollback`; `rc` is the code that the operation before it left.
  unfoldable pub undo : Trx → Operation → Rc × State → Option (Rc × State)
  unfolding visited rollback_updater
  undo t (insert rid) (rc, s) = elim (lookup s rid) [
    | none ↦ if t.recovering then some (Rc.record_not_exist, s) else none
    | some r ↦
        if t.recovering && not (eq_ℤ r.begin_xid (neg t.trx_id))
        then some (Rc.success, s)
        else some (Rc.success, remove s rid)
  ]
  undo t (delete rid) (Rc.success, s) = elim (visited rid (rollback_updater t) s) [
    | none ↦ none
    | some s' ↦ some (Rc.success, s')
  ]
  undo t (delete rid) (rc, s) = none

  -- The loop of `rollback`, over the operations from the last to the first.
  unfoldable pub undo_all : Trx → List Operation → Rc × State → Option (Rc × State)
  unfolding undo
  undo_all t [] r = some r
  undo_all t (op ∷ ops) r = elim (undo t op r) [ none ↦ none | some r' ↦ undo_all t ops r' ]

  -- `rollback`: its code is that of the log's append unless the transaction is a recovered one.
  unfoldable pub rollback : Rc → Trx → State → Option (Rc × Trx × State)
  unfolding undo_all
  rollback log_rc t s = elim (undo_all t (reverse t.operations) (Rc.success, s)) [
    | none ↦ none
    | some (rc, s') ↦
        if t.recovering || ltb 0 t.trx_id
        then some
            (if t.recovering then rc else log_rc, record t { started = false; operations = [] }, s')
        else none
  ]
