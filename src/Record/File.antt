-- ===== src/Record/File.antt =====
-- RecordFileHandler (record_manager.cpp) for the row format, over the pages of its DiskBufferPool. The log that
-- all pages share holds each entry with its page's number.
use mathlib.Core.Option
use miniob4cqu_db_exp.Common.{
  ℕ, Option, none, some, List, [], ◌∷◌, ◌++◌, map, Rc, succeeded, ◌==◌, if◌then◌else◌,
}
use miniob4cqu_db_exp.Record.Page.{Frame, is_full}
use miniob4cqu_db_exp.Record.Pool.{Pages, put, allocate}
use miniob4cqu_db_exp.Record.Log
use miniob4cqu_db_exp.Record.Log.{Handler, LogEntry, init_empty_page}

-- `free_pages_.insert`
unfoldable pub add_free : ℕ → List ℕ → List ℕ
add_free p [] = p ∷ []
add_free p (q ∷ pages) = if q == p then q ∷ pages else q ∷ add_free p pages

-- The set of free pages is a list, in the order in which `begin()` takes them.
pub record RecordFile : Type 0 where
  pub pages : Pages
  pub free_pages : List ℕ
  pub current_lsn : ℕ
  pub entries : List (ℕ × LogEntry)

-- `init` of a page handler, and what it leaves.
unfoldable pub open_page : RecordFile → Frame → Handler
open_page file f = record {
  frame = f;
  log = record { current_lsn = file.current_lsn; entries = [] };
}

unfoldable pub close_page : ℕ → Handler → RecordFile → RecordFile
close_page p h file = record file {
  pages = put file.pages p h.frame;
  current_lsn = h.log.current_lsn;
  entries = file.entries ++ map (λ e. (p, e)) h.log.entries;
}

-- The loop of `insert_record` over the free pages: an error, or the page that was found, if any,
-- and the free pages that are left.
unfoldable pub find_free_page : Pages → List ℕ → Rc × Option ℕ × List ℕ
find_free_page s [] = (Rc.success, none, [])
find_free_page s (p ∷ pages) = elim (s.content p) [
  | none ↦ (s.page_error p, none, p ∷ pages)
  | some f ↦ if is_full f then find_free_page s pages else (Rc.success, some p, p ∷ pages)
]

abbrev pub Inserts : Type 0
Inserts = Option (Rc × Option (ℕ × ℕ) × RecordFile)

-- `record_page_handler->insert_record` on a page; `none` is an access outside the page's bitmap.
unfoldable pub insert_into : List ℕ → ℕ → RecordFile → Inserts
unfolding open_page close_page
insert_into bytes p file = elim (file.pages.content p) [
  | none ↦ some (file.pages.page_error p, none, file)
  | some f ↦ elim (Log.insert_record bytes (open_page file f)) [
    | none ↦ none
    | some (rc, slot, h) ↦ some (rc, Option.map (λ i. (p, i)) slot, close_page p h file)
  ]
]

-- A new page, by what its allocation gives, and the insertion into it.
unfoldable pub insert_allocated :
    List ℕ → ℕ → RecordFile → Rc × Option (ℕ × Frame) × Pages → Inserts
unfolding open_page close_page add_free insert_into
insert_allocated bytes record_size file (rc, none, s) = some (rc, none, record file { pages = s })
insert_allocated bytes record_size file (rc, some (p, f), s) =
    let fresh =
      close_page p (init_empty_page record_size [] (open_page file f))
        (record file { pages = s }) in
    insert_into bytes p (record fresh { free_pages = add_free p fresh.free_pages })

unfoldable pub insert_in_new : List ℕ → ℕ → RecordFile → Inserts
unfolding insert_allocated allocate
insert_in_new bytes record_size file = insert_allocated bytes record_size file (allocate file.pages)

-- The rest of `insert_record`, by what the loop has found.
unfoldable pub insert_found : List ℕ → ℕ → Rc × Option ℕ × List ℕ → RecordFile → Inserts
unfolding insert_into insert_in_new
insert_found bytes record_size (Rc.success, some p, free) file =
    insert_into bytes p (record file { free_pages = free })
insert_found bytes record_size (Rc.success, none, free) file =
    insert_in_new bytes record_size (record file { free_pages = free })
insert_found bytes record_size (rc, page, free) file =
    some (rc, none, record file { free_pages = free })

unfoldable pub insert_record : List ℕ → ℕ → RecordFile → Inserts
unfolding find_free_page insert_found
insert_record bytes record_size file =
    insert_found bytes record_size (find_free_page file.pages file.free_pages) file

unfoldable pub delete_record : ℕ → ℕ → RecordFile → Option (Rc × RecordFile)
unfolding open_page close_page add_free
delete_record p slot file = elim (file.pages.content p) [
  | none ↦ some (file.pages.page_error p, file)
  | some f ↦ elim (Log.delete_record slot (open_page file f)) [
    | none ↦ none
    | some (rc, h) ↦
        let file' = close_page p h file in
        some (
          rc,
          if succeeded rc then record file' { free_pages = add_free p file'.free_pages } else file',
        )
  ]
]

-- The code, and the bytes that `record` receives.
unfoldable pub get_record : ℕ → ℕ → RecordFile → Rc × Option (List ℕ)
get_record p slot file = elim (file.pages.content p) [
  | none ↦ (file.pages.page_error p, none)
  | some f ↦ Log.get_record slot f
]
