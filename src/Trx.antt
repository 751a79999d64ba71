-- ===== src/Trx.antt =====
-- Multi-version transactions: MvccTrx, MvccTrxKit (src/observer/storage/trx/mvcc_trx.cpp) and the
-- replay of their log (mvcc_trx_log.cpp), over the calls of one table, `Trx.Table`.
pub mod Table
pub mod Mvcc
pub mod Visibility
pub mod Recover
pub mod Resurrect
mod Tests
