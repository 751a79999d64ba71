-- ===== src/Trx/Visibility.antt =====
-- What `visit_record` lets a transaction read or change (mvcc_trx.cpp).
use miniob4cqu_db_exp.Common.{
  ℕ, zero, suc, ◌≤◌, ◌<◌, ◌≡◌, ◌≢◌, refl, Rc, arith, leb, if◌then◌else◌, ℤ, pos, negsuc, neg,
}
use miniob4cqu_db_exp.Trx.Table.{Row}
use miniob4cqu_db_exp.Trx.Mvcc.{ReadWriteMode, read_only, read_write, visit_record, max_trx_id}

-- The row as another transaction t leaves it: marked as deleted, or deleted under the commit number.
abbrev pub deleting : ℕ → Row → Row
deleting t r = record r { end_xid = neg t }

abbrev pub deleted_at : ℕ → Row → Row
deleted_at c r = record r { end_xid = pos c }

abbrev pub inserted_at : ℕ → Row → Row
inserted_at c r = record r { begin_xid = pos c }

-- No row is changed by two transactions at once: if t may change a row and marks it as deleted, no
-- other transaction may change it until t commits or rolls back.
pub no_dirty_write :
    (t u : ℕ) (r : Row)
    → 0 < t
    → 0 < u
    → t ≢ u
    → visit_record t read_write r ≡ Rc.success
    → visit_record u read_write (deleting t r) ≢ Rc.success
unfolding visit_record
no_dirty_write (suc t) (suc u) r p q ne h = ground arith
no_dirty_write _ _ r p q ne h = absurd (omega arith)

stays_committed :
    (t u c content : ℕ) (b e : ℤ)
    → e ≢ pos 0
    → suc t ≢ suc u
    → suc u < suc c
    → visit_record (suc u) read_only (record { begin_xid = b; end_xid = e; content = content })
      ≡ Rc.success
    → visit_record (suc t) read_write (record { begin_xid = b; end_xid = e; content = content })
      ≡ Rc.success
    → visit_record
        (suc u)
        read_only
        (record { begin_xid = b; end_xid = pos (suc c); content = content })
      ≡ Rc.success
unfolding visit_record
stays_committed t u c content (pos zero) e nz ne lt h k = refl
stays_committed t u c content (pos (suc b)) (pos zero) nz ne lt h k = absurd (nz refl)
stays_committed t u c content (pos (suc b)) (pos (suc e)) nz ne lt h k = ground arith
stays_committed t u c content (pos (suc b)) (negsuc e) nz ne lt h k = ground arith
stays_committed t u c content (negsuc b) e nz ne lt h k = ground arith

-- A row that a reader u sees stays visible to it while another transaction t, which may change the
-- row, deletes it, and after t has committed under a number c that is greater than u. The row's
-- end field is not 0.
pub reads_stay :
    (t u c : ℕ) (r : Row)
    → 0 < t
    → 0 < u
    → t ≢ u
    → u < c
    → r.end_xid ≢ pos 0
    → visit_record u read_only r ≡ Rc.success
    → visit_record t read_write r ≡ Rc.success
    → (visit_record u read_only (deleting t r) ≡ Rc.success)
      × (visit_record u read_only (deleted_at c r) ≡ Rc.success)
unfolding visit_record
reads_stay (suc t) (suc u) (suc c) r p q ne lt nz h k =
    (ground arith, stays_committed t u c r.content r.begin_xid r.end_xid nz ne lt h k)
reads_stay _ _ _ r p q ne lt nz h k = absurd (omega arith)

-- The row that `insert_record` of t stores.
abbrev pub inserted_by : ℕ → ℕ → Row
inserted_by t content = record { begin_xid = neg t; end_xid = pos max_trx_id; content = content }

-- A row that t has inserted is hidden from every other transaction u until t commits under a
-- number c; from then on it is seen by exactly the transactions from c on.
pub insert_publishes :
    (t u c content : ℕ) (mode : ReadWriteMode)
    → 0 < t
    → 0 < u
    → t ≢ u
    → 0 < c
    → u ≤ max_trx_id
    → (visit_record u mode (inserted_by t content) ≡ Rc.record_invisible)
      × (visit_record u mode (inserted_at c (inserted_by t content))
          ≡ (if leb c u then Rc.success else Rc.record_invisible))
unfolding visit_record
insert_publishes (suc t) (suc u) (suc c) content mode p q ne lt bound = (ground arith, ground arith)
insert_publishes _ _ _ content mode p q ne lt bound = absurd (omega arith)

-- A transaction that deletes a row which it has inserted itself goes on seeing the row, in both
-- modes.
pub own_delete_unseen :
    (t content : ℕ) (mode : ReadWriteMode)
    → 0 < t
    → visit_record t mode (deleting t (inserted_by t content)) ≡ Rc.success
unfolding visit_record
own_delete_unseen (suc t) content mode p = ground arith
own_delete_unseen zero content mode p = absurd (omega arith)

-- A reader u does not see a row that was committed under a later number b, and sees it as soon as
-- any other transaction t marks it as deleted.
pub delete_reveals :
    (u b t content : ℕ)
    → 0 < u
    → u < b
    → 0 < t
    → t ≢ u
    → (visit_record u read_only (inserted_at b (inserted_by t content)) ≡ Rc.record_invisible)
      × (visit_record u read_only (deleting t (inserted_at b (inserted_by t content))) ≡ Rc.success)
unfolding visit_record
delete_reveals (suc u) (suc b) (suc t) content p lt q ne = (ground arith, ground arith)
delete_reveals _ _ _ content p lt q ne = absurd (omega arith)
