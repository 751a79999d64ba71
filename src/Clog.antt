-- ===== src/Clog.antt =====
-- The log: its entries, the buffer that numbers them, and the files that hold them
-- (src/observer/storage/clog).
pub mod Entry
pub mod Buffer
pub mod File
pub mod Flush
pub mod Append
pub mod Accounting
pub mod Iterate
pub mod ReadEntries
pub mod SkipTo
mod Tests
