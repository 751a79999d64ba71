-- ===== src/Index.antt =====
-- The B+ tree index (src/observer/storage/index).
pub mod Search
pub mod SearchBounds
pub mod Page
pub mod Node
pub mod Leaf
pub mod Internal
pub mod Tree
pub mod Delete
pub mod Replay
pub mod Logged
pub mod LoggedNode
pub mod LoggedLeaf
pub mod LoggedInternal
pub mod LoggedTree
pub mod LoggedDelete
pub mod Redo
pub mod Keys
pub mod Rollback
pub mod LeafOrder
pub mod LeafInsert
pub mod SortedParts
pub mod LeafRemove
pub mod Wrote
pub mod Split
pub mod FullLeaf
pub mod PutAt
pub mod Parents
pub mod SplitNode
pub mod HalfStep
pub mod NodeHalves
pub mod ParentStep
pub mod ParentSplit
pub mod Whole
pub mod LeafStep
pub mod Shape
pub mod Select
pub mod FindLeaf
pub mod Rewritten
pub mod Retree
pub mod Regrown
pub mod Insert
pub mod Leaves
pub mod Parted
pub mod Chain
pub mod NextEntry
pub mod Fetch
pub mod Range
pub mod Opened
pub mod Places
pub mod Scan
pub mod Scanner
mod Tests
