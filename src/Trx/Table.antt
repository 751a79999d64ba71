-- ===== src/Trx/Table.antt =====
-- What a transaction needs of a table (Table::insert_record, get_record, visit_record and
-- delete_record of src/observer/storage/table), with records found by their RID.
use miniob4cqu_db_exp.Common.{ℕ, Rc, Option, ◌⊎◌, ℤ}

-- A record: the two transaction fields and what the user stored.
pub record Row : Type 0 where
  pub begin_xid : ℤ
  pub end_xid : ℤ
  pub content : ℕ

-- The calls of Table that a transaction makes, as parameters of it.
pub record TableStore : Type 1 where
  pub State : Type 0
  -- get_record: `none` is RECORD_NOT_EXIST
  pub lookup : State → ℕ → Option Row
  -- insert_record: a failure's code, or the RID
  pub insert : State → Row → Rc ⊎ (ℕ × State)
  -- the write of visit_record whose updater returned true
  pub update : State → ℕ → Row → State
  -- delete_record of a record that exists
  pub remove : State → ℕ → State
