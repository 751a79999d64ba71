-- ===== src/Lib.antt =====
-- MiniOB, a teaching database: its storage engine and a rule of its optimizer.
--
-- The parts that are modelled, and their files here:
--
-- - Bitmap (src/common/lang/bitmap.cpp): the bits that say which slots of a page are taken.
--   `next_unsetted_bit`, `next_setted_bit`, `get_bit`, `set_bit`, `clear_bit` have the code's
--   names. Bitmap/Bits and Bitmap/Search hold the proofs.
-- - Record (src/observer/storage/record): pages of records in the row format. Record/Page formats
--   a page, Record/Log holds the operations of RowRecordPageHandler with the log entries that
--   RecordLogHandler writes, Record/Replay is RecordLogReplayer, Record/Iterate is
--   RecordPageIterator with the loop of HeapRecordScanner. A Frame is the page's header, bitmap,
--   column index and bytes, and the frame's log sequence number; Record/View reads it as a map
--   from slots to records, with the invariant of a page. Record/Layout, Record/Insert,
--   Record/Change and Record/Recovery hold the proofs. Record/File is RecordFileHandler over the
--   pages of its DiskBufferPool: Record/Pool takes `allocate_page` and its header from BufferPool
--   and adds what `get_this_page` finds in a page. Record/FileView reads a file as a map from page
--   and slot to records, and Record/FileInsert and Record/FileDelete hold the proofs.
-- - Trx (src/observer/storage/trx/mvcc_trx.cpp, mvcc_trx_log.cpp): multi-version transactions. A
--   method takes the transaction and the table and returns its code and both. The calls of the
--   table and the code of the append to the log are parameters (Trx/Table). Trx/Mvcc has the
--   methods and the updaters that they pass to the table; Trx/Visibility and Trx/Resurrect hold
--   the proofs, on single records; Trx/Recover is the replay of the transaction log.
-- - Codec (src/observer/storage/common/codec.h): the keys whose byte order is the order of the
--   values. Codec/Unsigned and Codec/Text have `append` and `parse` for numbers of 64 bits and for
--   texts.
-- - BufferPool (src/observer/storage/buffer/disk_buffer_pool.cpp, buffer_pool_log.cpp): the header
--   page of a file, which says which pages are allocated, `allocate_page` and `dispose_page` with
--   their log, and the redo of the log. BufferPool/Valid says what a valid header is;
--   BufferPool/Steps has the runs of a file. BufferPool/Allocate, BufferPool/Redo and
--   BufferPool/Recovery hold the proofs.
-- - Clog (src/observer/storage/clog): Clog/Entry has log entries and their bytes in a file,
--   Clog/Buffer LogEntryBuffer, Clog/File the writer and the reader of a log file. Clog/Flush,
--   Clog/Append, Clog/Accounting, Clog/ReadEntries, Clog/SkipTo and Clog/Iterate hold the proofs.
-- - Lsm (src/oblsm): Lsm/Keys has the order of internal keys over any order of user keys,
--   Lsm/ByteKeys the order of byte strings, Lsm/Merge ObMergingIterator, Lsm/UserIterator
--   ObUserIterator, and Lsm/Get its `seek` with the test that ObLsmImpl::get makes of the entry
--   found. An iterator is the list of the entries from its position on. Lsm/EntryOrder,
--   Lsm/FindSmallest and Lsm/MergeOrder hold the proofs on merging, Lsm/Visible, Lsm/Walk,
--   Lsm/Snapshot, Lsm/Sought and Lsm/Lookup those on snapshots.
-- - Optimizer (src/observer/sql/expr/expression.cpp, src/observer/sql/optimizer): in
--   Optimizer/Expression, constants, conjunctions and their evaluation over an interface of
--   values; in Optimizer/Values, the part of Value (src/observer/common/value.cpp) that fills it;
--   in Optimizer/Conjunction, ConjunctionSimplificationRule. Optimizer/Constants,
--   Optimizer/Decided and Optimizer/Simplified hold the proofs. An expression of another class
--   stands for its `get_value`.
-- - Index (src/observer/storage/index/bplus_tree.cpp, bplus_tree_log.cpp,
--   bplus_tree_log_entry.cpp, latch_memo.cpp): the B+ tree. Index/Search is `lower_bound`
--   (src/common/lang/lower_bound.h); Index/Page has the pages, the log entries and the state of
--   one mini transaction; Index/Node, Index/Leaf and Index/Internal are the three node handlers,
--   with the code's names; Index/Tree has the way to a leaf and the insertion of BplusTreeHandler,
--   Index/Delete its deletion; Index/Replay `__redo` and `rollback` of BplusTreeLogger with the
--   entries' own; Index/Keys KeyComparator over any order of attribute values. A step takes the
--   state and ends with a value, a return code or a crash (an assert, or a page of the wrong
--   kind). Index/Logged, Index/LoggedNode, Index/LoggedLeaf, Index/LoggedInternal,
--   Index/LoggedTree and Index/LoggedDelete follow the log through all steps, for Index/Redo;
--   Index/SearchBounds, Index/LeafOrder, Index/SortedParts, Index/LeafInsert, Index/LeafRemove and
--   Index/LeafStep are about the search and one leaf, Index/Rollback about rollback. Index/Shape
--   says what a tree is, Index/Select, Index/Leaves, Index/Parted and Index/FindLeaf follow the
--   way down, Index/Rewritten, Index/Retree, Index/Regrown and Index/Insert an insertion into a
--   leaf with room. Index/Wrote, Index/Split, Index/PutAt, Index/FullLeaf, Index/Parents,
--   Index/SplitNode, Index/NodeHalves, Index/HalfStep, Index/ParentStep and Index/ParentSplit say
--   what each step of an insertion that splits does to the pages. Index/Whole reads a tree with
--   the pages it takes and the parents of its pages, and its children put these steps together:
--   Frame, Cut, Forget and Change say what a write leaves alone, Siblings, Descend, DescendLater,
--   Children and Parent follow the way down, Result, Took, Halved and Ascend the way up,
--   LeafSteps, LeafCases, AtLeaf, Insertion, NewRoot, Holds, Create and Grow the whole insertion.
--   Index/Scanner is BplusTreeScanner and `get_entry`; Index/Chain, Index/NextEntry, Index/Fetch,
--   Index/Opened, Index/Places, Index/Range and Index/Scan follow a scan.
-- - Common: shared lists over the native numbers, buffers, counting, signed numbers, the return
--   codes, orders of keys, and the steps of the index.
--
-- The parts meet as in the code: a page finds a free slot in its bitmap; each change of a page
-- appends a log entry, whose number the frame takes; a transaction changes the table's records
-- through their begin and end fields.
--
-- Numbers. Sizes, offsets, slots and log sequence numbers are natural numbers; the code's -1 is
-- `none`. The fields begin and end of a record are signed. A page is 8192 bytes with 12 bytes of
-- log sequence number and checksum in front. `x << 8` on 64 bits is taken modulo 2^64. The counter
-- of transaction numbers is an int32_t; the model is the code for a counter below its maximum. The
-- size of log data is compared as the int32_t that the code makes of it.
--
-- Fuel. `scan_page` takes one round for each slot that is left, so that the capacity is enough.
-- `fix_record_capacity` counts its capacity down. The loop that writes a number has room for eight
-- bytes, and a number of 64 bits takes no more. Reading a log file takes a round for each entry
-- and one more; the iterators of Lsm take one round for each entry. The binary search takes as
-- many rounds as there are items. On the B+ tree the fuel bounds the height: the way down and the
-- way up crash at its end, and an operation that ends has had enough; a search needs one round
-- more than the height, an insertion as many as the index has levels. A scan takes one round for
-- each item and one more.
--
-- Not modelled: latches and threads (each operation is one step), the failure of an append to the
-- log of pages (the code ignores it), tables, entries of the transaction log that are too short or
-- whose table is missing, the directory of log files, the frames of the buffer pool, the PAX
-- format's own operations, signed keys of the ordered encoding, floating-point keys (they are
-- compared up to an epsilon, which is no order), scans of an index on texts, the header page entry
-- and the file of the index, and SQL but for the conjunctions above.
pub mod Bitmap
pub mod BufferPool
pub mod Clog
pub mod Codec
pub mod Common
pub mod Index
pub mod Lsm
pub mod Optimizer
pub mod Record
pub mod Trx
