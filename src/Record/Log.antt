-- ===== src/Record/Log.antt =====
-- The operations of a page and the log that they write: RowRecordPageHandler (record_manager.cpp)
-- over RecordLogHandler (record_log.cpp). The log buffer numbers its entries from
-- `current_lsn + 1` on (log_buffer.cpp); a page's entries are far below the payload limit, so that
-- `append` does not fail.
use miniob4cqu_db_exp.Common.{
  ℕ, suc, ◌+◌, ◌-◌, ◌/◌, Bool, true, false, Option, none, some, List, [], ◌∷◌, ◌++◌, length, take,
  Rc, ltb, leb, ◌==◌, if◌then◌else◌, read, write,
}
use miniob4cqu_db_exp.Bitmap
use miniob4cqu_db_exp.Bitmap.{Bitmap}
use miniob4cqu_db_exp.Record.Page.{
  Frame, bitmap_of, empty_header, column_ends, format_page, record_offset,
}

pub data Operation : Type 0 where
  init_page : ℕ → ℕ → List ℕ → Operation
  insert : ℕ → List ℕ → Operation
  update : ℕ → List ℕ → Operation
  delete : ℕ → Operation

pub record LogEntry : Type 0 where
  pub lsn : ℕ
  pub operation : Operation

pub record LogHandler : Type 0 where
  pub current_lsn : ℕ
  pub entries : List LogEntry

-- A page handler that is open for writing: its frame and its log.
pub record Handler : Type 0 where
  pub frame : Frame
  pub log : LogHandler

-- `log_handler_->append`, and `frame->set_lsn` if it gave a number.
unfoldable pub append_log : Operation → Handler → Handler
append_log op h =
    let lsn = suc h.log.current_lsn in
    record {
      frame = record h.frame { lsn = lsn };
      log = record {
        current_lsn = lsn;
        entries = h.log.entries ++ record { lsn = lsn; operation = op } ∷ [];
      };
    }

-- `init_empty_page` from the lengths of the columns (none for the row format).
unfoldable pub init_empty_page : ℕ → List ℕ → Handler → Handler
unfolding format_page column_ends append_log
init_empty_page record_size lens h =
    let column_num = length lens in
    let index = column_ends (empty_header record_size column_num).record_capacity 0 lens in
    append_log (init_page record_size column_num index)
      (record h { frame = format_page h.frame record_size column_num index })

-- `memcpy(get_record_data(slot), data, record_real_size)`, and `mark_dirty`.
unfoldable pub store : ℕ → List ℕ → Frame → Frame
unfolding record_offset
store slot bytes f = record f {
  area =
      write f.area (record_offset f.page_header slot) (take f.page_header.record_real_size bytes);
  dirty = true;
}

-- A new bitmap, and a new number of records.
unfoldable pub with_bitmap : Bitmap → ℕ → Frame → Frame
with_bitmap b num f = record f {
  bitmap = b.bytes;
  page_header = record f.page_header { record_num = num };
}

-- The code dereferences the bitmap at a slot without a test of its length.
unfoldable pub bit_at : Frame → ℕ → Option Bool
bit_at f slot =
    if ltb (slot / 8) (length f.bitmap) then some (Bitmap.get_bit (bitmap_of f) slot) else none

abbrev pub Outcome : Type 0
Outcome = Option (Rc × Handler)

-- The rest of `insert_record`, at the free slot; -1 is no index into the bitmap.
unfoldable pub insert_at : List ℕ → Handler → Option ℕ → Option (Rc × Option ℕ × Handler)
unfolding append_log store with_bitmap
insert_at bytes h none = none
insert_at bytes h (some index) =
    let f = h.frame in
    let marked =
      with_bitmap (Bitmap.set_bit (bitmap_of f) index) (f.page_header.record_num + 1) f in
    let logged =
      append_log (insert index (take f.page_header.record_real_size bytes))
        (record h { frame = marked }) in
    some (Rc.success, some index, record logged { frame = store index bytes logged.frame })

-- The result code, the slot that `rid` receives, and the state.
unfoldable pub insert_record : List ℕ → Handler → Option (Rc × Option ℕ × Handler)
unfolding insert_at
insert_record bytes h =
    if h.frame.page_header.record_num == h.frame.page_header.record_capacity
    then some (Rc.record_nomem, none, h)
    else insert_at bytes h (Bitmap.next_unsetted_bit (bitmap_of h.frame) 0)

unfoldable pub recover_insert_record : List ℕ → ℕ → Frame → Rc × Frame
unfolding store with_bitmap
recover_insert_record bytes slot f =
    if leb f.page_header.record_capacity slot
    then (Rc.record_invalid_rid, f)
    else let marked =
        if Bitmap.get_bit (bitmap_of f) slot
        then f
        else with_bitmap (Bitmap.set_bit (bitmap_of f) slot) (f.page_header.record_num + 1) f in
      (Rc.success, store slot bytes marked)

-- `delete_record` of both formats.
unfoldable pub delete_at : ℕ → Handler → Option Bool → Outcome
unfolding append_log with_bitmap
delete_at slot h none = none
delete_at slot h (some false) = some (Rc.record_not_exist, h)
delete_at slot h (some true) =
    let f = h.frame in
    let cleared =
      with_bitmap (Bitmap.clear_bit (bitmap_of f) slot) (f.page_header.record_num - 1) f in
    some
      (Rc.success, append_log (delete slot) (record h { frame = record cleared { dirty = true } }))

unfoldable pub delete_record : ℕ → Handler → Outcome
unfolding delete_at bit_at
delete_record slot h = delete_at slot h (bit_at h.frame slot)

unfoldable pub update_record : ℕ → List ℕ → Handler → Rc × Handler
unfolding append_log store
update_record slot bytes h =
    if leb h.frame.page_header.record_capacity slot
    then (Rc.invalid_argument, h)
    else if Bitmap.get_bit (bitmap_of h.frame) slot
    then (
      Rc.success,
      append_log (update slot (take h.frame.page_header.record_real_size bytes))
          (record h { frame = store slot bytes h.frame }),
    )
    else (Rc.record_not_exist, h)

-- The code, and the bytes that `record` is set to.
unfoldable pub get_record : ℕ → Frame → Rc × Option (List ℕ)
unfolding record_offset
get_record slot f =
    if leb f.page_header.record_capacity slot
    then (Rc.record_invalid_rid, none)
    else if Bitmap.get_bit (bitmap_of f) slot
    then (
      Rc.success,
      some (read f.area (record_offset f.page_header slot) f.page_header.record_real_size),
    )
    else (Rc.record_not_exist, none)
