-- ===== src/Record/FileInsert.antt =====
-- `insert_record` of RecordFileHandler, on every branch.
use miniob4cqu_db_exp.Common.{ℕ, ◌<◌, ◌≡◌, true, some, List, [], length, Rc}
use miniob4cqu_db_exp.Bitmap.{get_bit}
use miniob4cqu_db_exp.BufferPool.Valid
use miniob4cqu_db_exp.Record.Page.{Frame, empty_header}
use miniob4cqu_db_exp.Record.Pool.{Pages, Given, allocate}
use miniob4cqu_db_exp.Record.Log.{Handler, init_empty_page}
use miniob4cqu_db_exp.Record.View
use miniob4cqu_db_exp.Record.File.{RecordFile, open_page, close_page, add_free}
use miniob4cqu_db_exp.Record.FileView.{IsValid}

-- The page's bit is set.
abbrev IsMarked : RecordFile → ℕ → Type 0
IsMarked file p = get_bit file.pages.pool.header.bitmap p ≡ true

module _ (size : ℕ) (bytes : List ℕ) (whole : length bytes ≡ size) (some_size : 0 < size)
    (room : 0 < (empty_header size 0).record_capacity) where
  -- A page that was allocated and formatted, in its file.
  module _ (file : RecordFile) (p : ℕ) (f : Frame) (s : Pages) (v : IsValid size file)
      (e : allocate file.pages ≡ (Rc.success, some (p, f), s))
      (given : Given file.pages s p f) where
    formatted : Handler
    unfolding open_page
    formatted = init_empty_page size [] (open_page file f)

    extended : RecordFile
    unfolding close_page formatted
    extended =
        let fresh = close_page p formatted (record file { pages = s }) in
        record fresh { free_pages = add_free p fresh.free_pages }
