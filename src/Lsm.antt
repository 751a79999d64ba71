-- ===== src/Lsm.antt =====
-- The LSM engine (src/oblsm): the order of internal keys, the iterator that merges tables and the
-- iterator that shows a user the newest versions.
pub mod Keys
pub mod ByteKeys
pub mod UserIterator
pub mod Visible
pub mod Walk
pub mod Snapshot
pub mod Get
pub mod Lookup
pub mod Sought
pub mod Merge
pub mod EntryOrder
pub mod FindSmallest
pub mod MergeOrder
mod Tests
