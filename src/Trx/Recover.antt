-- ===== src/Trx/Recover.antt =====
-- MvccTrxLogReplayer (mvcc_trx_log.cpp), MvccTrx::redo and the constructor for recovered transactions
-- (mvcc_trx.cpp).
use miniob4cqu_db_exp.Common.{
  ℕ, suc, ◌≤◌, ◌<◌, ◌≡◌, refl, Rc, Bool, true, false, Option, none, some, List, [], ◌∷◌, ◌++◌,
  arith, ltb, ◌==◌, if◌then◌else◌, pos, All,
}
use miniob4cqu_db_exp.Trx.Table.{TableStore}
use miniob4cqu_db_exp.Trx.Mvcc.{
  Trx, insert, delete, read_only, visit_record, start_if_need, rollback, max_trx_id,
}

pub data LogEntry : Type 0 where
  insert_record delete_record : ℕ → ℕ → LogEntry
  commit : ℕ → ℕ → LogEntry
  rolled_back : ℕ → LogEntry

abbrev pub trx_of : LogEntry → ℕ
trx_of (insert_record x rid) = x
trx_of (delete_record x rid) = x
trx_of (commit x c) = x
trx_of (rolled_back x) = x

abbrev pub ends_trx : LogEntry → Bool
ends_trx (insert_record x rid) = false
ends_trx (delete_record x rid) = false
ends_trx (commit x c) = true
ends_trx (rolled_back x) = true

-- The replayer's map and the counter of its kit.
pub record Replayer : Type 0 where
  pub trx_map : List (ℕ × Trx)
  pub current_trx_id : ℕ

unfoldable pub find : ℕ → List (ℕ × Trx) → Option Trx
find x [] = none
find x ((y, t) ∷ m) = if y == x then some t else find x m

unfoldable pub erase : ℕ → List (ℕ × Trx) → List (ℕ × Trx)
erase x [] = []
erase x ((y, t) ∷ m) = let rest = erase x m in if y == x then rest else (y, t) ∷ rest

-- `redo` only remembers the operation. The entry is whole, and `find_table` has its table.
unfoldable pub redo : LogEntry → Trx → Trx
redo (insert_record x rid) t = record t { operations = t.operations ++ insert rid ∷ [] }
redo (delete_record x rid) t = record t { operations = t.operations ++ delete rid ∷ [] }
redo (commit x c) t = t
redo (rolled_back x) t = t

-- `redo` on the transaction that the map points to.
unfoldable pub redo_in : LogEntry → List (ℕ × Trx) → List (ℕ × Trx)
unfolding redo
redo_in e [] = []
redo_in e ((y, t) ∷ m) = if y == trx_of e then (y, redo e t) ∷ m else (y, t) ∷ redo_in e m

unfoldable pub close_trx : LogEntry → Replayer → Replayer
close_trx e r = record r { trx_map = if ends_trx e then erase (trx_of e) r.trx_map else r.trx_map }

-- `replay`. A transaction that the map does not have is created, which moves the kit's counter, and
-- `redo` runs on it; the code does not put it into the map. At the end of a transaction
-- `trx_map_[id]` and `erase` take the entry out.
unfoldable pub replay : LogEntry → Replayer → Replayer
unfolding find erase redo_in close_trx
replay e r = elim (find (trx_of e) r.trx_map) [
  | none ↦ close_trx e (record r {
    current_trx_id = if ltb r.current_trx_id (trx_of e) then trx_of e else r.current_trx_id;
  })
  | some t ↦ close_trx e (record r { trx_map = redo_in e r.trx_map })
]

unfoldable pub replay_all : List LogEntry → Replayer → Replayer
replay_all [] r = r
replay_all (e ∷ es) r = replay_all es (replay e r)

module _ (T : TableStore) where
  open T use {State}

  -- `on_done`: the transactions that are left in the map are rolled back.
  unfoldable pub roll_back_all : List (ℕ × Trx) → State → Option State
  roll_back_all [] s = some s
  roll_back_all ((x, t) ∷ m) s = elim (rollback T Rc.success t s) [
    | none ↦ none
    | some (rc, t', s') ↦ roll_back_all m s'
  ]

  -- A recovery: the whole log, and `on_done`.
  unfoldable pub recover : List LogEntry → Replayer → State → Option State
  unfolding roll_back_all
  recover log r s = roll_back_all (replay_all log r).trx_map s

abbrev pub fresh_replayer : Replayer
fresh_replayer = record { trx_map = []; current_trx_id = 0 }

replay-empty :
    (e : LogEntry) (c : ℕ)
    → replay e (record { trx_map = []; current_trx_id = c })
      ≡ record { trx_map = []; current_trx_id = if ltb c (trx_of e) then trx_of e else c }
unfolding replay
replay-empty (insert_record x rid) c = refl
replay-empty (delete_record x rid) c = refl
replay-empty (commit x n) c = refl
replay-empty (rolled_back x) c = refl

-- The greatest number of a transaction in the log, or the counter if that is greater.
abbrev pub newest : ℕ → List LogEntry → ℕ
newest c [] = c
newest c (e ∷ es) = newest (if ltb c (trx_of e) then trx_of e else c) es

pub replay_all-empty :
    (es : List LogEntry) (c : ℕ)
    → replay_all es (record { trx_map = []; current_trx_id = c })
      ≡ record { trx_map = []; current_trx_id = newest c es }
unfolding replay_all
replay_all-empty [] c = refl
replay_all-empty (e ∷ es) c = rw (replay-empty e c, replay_all) (replay_all-empty es _)

-- Recovery from any log rolls back no transaction: the records are left as they were found, those
-- of transactions that never committed included.
pub recover_unchanged :
    (T : TableStore) (log : List LogEntry) (s : T.State) → recover T log fresh_replayer s ≡ some s
unfolding recover
recover_unchanged T log s = rw (replay_all-empty log 0, recover, roll_back_all) refl

newest-le : (c : ℕ) (es : List LogEntry) → c ≤ newest c es
newest-le c [] = omega arith
newest-le c (e ∷ es) = ground (arith, newest-le (if ltb c (trx_of e) then trx_of e else c) es)

newest-All : (c : ℕ) (es : List LogEntry) → All (λ (e : LogEntry). trx_of e < suc (newest c es)) es
newest-All c [] = tt
newest-All c (e ∷ es) =
    let d = if ltb c (trx_of e) then trx_of e else c in
    (ground (arith, newest-le d es), newest-All d es)

newest-lt :
    (es : List LogEntry) (c bound : ℕ)
    → c < bound
    → All (λ (e : LogEntry). trx_of e < bound) es
    → newest c es < bound
newest-lt [] c bound lt h = lt
newest-lt (e ∷ es) c bound lt h =
    newest-lt es (if ltb c (trx_of e) then trx_of e else c) bound (ground (arith, lt, h.0)) h.1

-- After the replay of a log whose transactions have numbers below the maximum, a transaction that
-- starts takes a number greater than that of every transaction in the log, and not above the
-- maximum, so that the kit's counter does not wrap around.
pub start-replay_all :
    (log : List LogEntry) (t : Trx)
    → t.started ≡ false
    → All (λ (e : LogEntry). trx_of e < max_trx_id) log
    → let started = (start_if_need (replay_all log fresh_replayer).current_trx_id t).1 in
      All (λ (e : LogEntry). trx_of e < started.trx_id) log × (started.trx_id ≤ max_trx_id)
unfolding start_if_need
start-replay_all log t idle small =
    rw (replay_all-empty log 0, idle, start_if_need)
      (newest-All 0 log, newest-lt log 0 max_trx_id (omega arith) small)

newest-last :
    (es : List LogEntry) (c x n : ℕ)
    → c ≤ x
    → All (λ (e : LogEntry). trx_of e ≤ x) es
    → newest c (es ++ commit x n ∷ []) ≡ x
newest-last [] c x n le h = ground arith
newest-last (e ∷ es) c x n le h = newest-last es _ x n (ground arith) h.1

-- The commit numbers in a log are not restored. If the newest transaction x of a log commits under
-- the number x + 1, and is the last to end, then the first transaction after recovery has this
-- number itself, and still sees a record that x deleted.
pub commit_number_reused :
    (es : List LogEntry) (x b content : ℕ) (t : Trx)
    → All (λ (e : LogEntry). trx_of e ≤ x) es
    → t.started ≡ false
    → 0 < b
    → b ≤ x
    → let r = replay_all (es ++ commit x (suc x) ∷ []) fresh_replayer in
      let u = (start_if_need r.current_trx_id t).1.trx_id in
      (u ≡ suc x)
      × (visit_record u read_only
            (record { begin_xid = pos b; end_xid = pos (suc x); content = content })
          ≡ Rc.success)
unfolding start_if_need visit_record
commit_number_reused es x b content t h idle lo hi =
    rw
      (
        replay_all-empty (es ++ commit x (suc x) ∷ []) 0,
        newest-last es 0 x (suc x) (omega arith) h,
        idle,
        start_if_need,
      )
      (refl, ground arith)
