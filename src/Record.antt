-- ===== src/Record.antt =====
-- The record pages of src/observer/storage/record: RecordPageHandler, RowRecordPageHandler and
-- RecordPageIterator (record_manager.cpp), and RecordLogHandler (record_log.cpp).
-- A frame's bytes are `area`, with the page header, the bitmap and the column index, which stand at
-- its start, kept as fields of their own; `Record.Layout` proves that the records lie behind them.
-- A slot number is not negative. An access outside the bitmap, which C++ leaves undefined, is `none`.
pub mod Page
pub mod Log
pub mod Layout
pub mod View
pub mod Insert
pub mod Change
pub mod Replay
pub mod Recovery
pub mod Iterate
pub mod Pool
pub mod File
pub mod FileView
pub mod FileInsert
pub mod FileDelete
mod Tests
mod FileTests
