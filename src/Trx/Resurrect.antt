-- ===== src/Trx/Resurrect.antt =====
-- The deletion of a record and its commit and rollback, by the updaters of mvcc_trx.cpp. A deletion
-- that is rolled back takes an earlier, committed deletion with it.
use miniob4cqu_db_exp.Common.{
  ℕ, suc, ◌≤◌, ◌<◌, ◌≡◌, refl, Rc, true, false, some, arith, pos, neg, eq_ℤ, eq_ℤ_iff,
}
use miniob4cqu_db_exp.Trx.Table.{Row}
use miniob4cqu_db_exp.Trx.Mvcc.{
  Trx, read_only, read_write, visit_record, max_trx_id, delete_updater, rollback_updater,
}
use miniob4cqu_db_exp.Trx.Visibility.{deleting}

-- A row that lived from b to e.
abbrev pub ended : ℕ → ℕ → ℕ → Row
ended b e content = record { begin_xid = pos b; end_xid = pos e; content = content }

visible :
    (t b e content : ℕ)
    → 0 < b
    → b ≤ t
    → t ≤ e
    → visit_record t read_write (ended b e content) ≡ Rc.success
unfolding visit_record
visible (suc t) (suc b) (suc e) content p lo hi = ground arith
visible _ _ _ content p lo hi = absurd (omega arith)

later :
    (u b e content : ℕ)
    → 0 < b
    → b ≤ e
    → e < u
    → u ≤ max_trx_id
    → (visit_record u read_only (ended b e content) ≡ Rc.record_invisible)
      × (visit_record u read_only (ended b max_trx_id content) ≡ Rc.success)
unfolding visit_record
later (suc u) (suc b) (suc e) content p lo lt hi = (ground arith, ground arith)
later _ _ _ content p lo lt hi = absurd (omega arith)

eq_self : (t : Trx) → eq_ℤ (neg t.trx_id) (neg t.trx_id) ≡ true
eq_self t = (eq_ℤ_iff (neg t.trx_id) (neg t.trx_id)).1 refl

-- A record was deleted under the commit number e while an older transaction t, which is not a
-- recovered one, runs. Then the updater of a deletion by t still marks the record, and if t rolls
-- back, the record has no end any more: a transaction u that starts later does not see the record as
-- it was, and sees it now.
pub rollback_resurrects :
    (b e content u : ℕ) (t : Trx)
    → t.recovering ≡ false
    → 0 < b
    → b ≤ t.trx_id
    → t.trx_id ≤ e
    → e < u
    → u ≤ max_trx_id
    → (marked : Row) × (delete_updater t (ended b e content) ≡ (Rc.success, marked))
      × (rollback_updater t marked ≡ some (ended b max_trx_id content))
      × (visit_record u read_only (ended b e content) ≡ Rc.record_invisible)
      × (visit_record u read_only (ended b max_trx_id content) ≡ Rc.success)
unfolding delete_updater rollback_updater
rollback_resurrects b e content u t live p lo hi late bound =
    let seen = later u b e content p (omega arith) late bound in
    (
      deleting t.trx_id (ended b e content),
      rw (visible t.trx_id b e content p lo hi, delete_updater) refl,
      rw (eq_self t) refl,
      seen.0,
      seen.1,
    )
