-- ===== src/Record/Tests.antt =====
-- A small page with two slots of two bytes, and its log.
use miniob4cqu_db_exp.Common.{
  ℕ, ◌<◌, ◌≡◌, ◌≢◌, refl, ◌⊎◌, false, none, some, List, [], ◌∷◌, ◌++◌, Rc, replicate, arith,
  count_below, read, write,
}
use miniob4cqu_db_exp.Bitmap
use miniob4cqu_db_exp.Bitmap.{Bitmap}
use miniob4cqu_db_exp.Bitmap.Bits.{get_bit-zeros}
use miniob4cqu_db_exp.Record.Page.{PageHeader, Frame, bitmap_of, bp_page_data_size, empty_header}
use miniob4cqu_db_exp.Record.Log.{
  insert, delete, LogEntry, Handler, insert_record, insert_at, append_log, store, with_bitmap,
  delete_record,
}
use miniob4cqu_db_exp.Record.View.{IsValid, view, slot_data}
use miniob4cqu_db_exp.Record.Layout.{IsLaidOut, empty_header-IsLaidOut}
use miniob4cqu_db_exp.Record.Insert.{Inserted, insert_record_lem}
use miniob4cqu_db_exp.Record.Change.{Frees, Logs, delete_record_lem}
use miniob4cqu_db_exp.Record.Replay.{replay_all}
use miniob4cqu_db_exp.Record.Recovery.{insertion, Run, start, then_step, replay-Run}
use miniob4cqu_db_exp.Record.Iterate.{Record, init, scan_page, records_from, scan_page-records}

abbrev pub small_header : PageHeader
small_header = record {
  record_num = 0;
  column_num = 0;
  record_real_size = 2;
  record_size = 8;
  record_capacity = 2;
  col_idx_offset = 0;
  data_offset = 0;
}

abbrev pub small_page : Frame
small_page = record {
  lsn = 0;
  dirty = false;
  page_header = small_header;
  bitmap = replicate 1 0;
  column_index = [];
  area = replicate 16 0;
}

abbrev pub small : Handler
small = record { frame = small_page; log = record { current_lsn = 4; entries = [] } }

abbrev pub five_six : List ℕ
five_six = 5 ∷ 6 ∷ []

pub small-IsValid : IsValid small_page
unfolding count_below Bitmap.get_bit
small-IsValid = record {
  bits = record { bytes = omega arith; room = omega arith };
  padding = λ j h. get_bit-zeros 1 2 j;
  counted = refl;
  aligned = omega arith;
  fits = omega arith;
}

-- A row of 20 bytes takes 24; a page has room for 337 of them.
rows_of_20 : (empty_header 20 0).record_capacity ≡ 337
unfolding empty_header
rows_of_20 = refl

empty_header-IsLaidOut_example : IsLaidOut 3 20 (empty_header 20 3)
empty_header-IsLaidOut_example = empty_header-IsLaidOut 20 3 (omega arith) (omega arith)

abbrev pub blank : Handler
blank = record {
  frame = record small_page { area = replicate bp_page_data_size 0 };
  log = record { current_lsn = 4; entries = [] };
}

insert_record_lem_example :
    ((small_page.page_header.record_num ≡ 2)
      × (insert_record five_six small ≡ some (Rc.record_nomem, none, small)))
    ⊎ ((slot : ℕ) × (h' : Handler) × (0 < 2)
        × (insert_record five_six small ≡ some (Rc.success, some slot, h'))
        × Inserted five_six small h' slot)
insert_record_lem_example = insert_record_lem five_six small small-IsValid refl

delete_record_lem_example :
    ((view small_page 1 ≡ none) × (delete_record 1 small ≡ some (Rc.record_not_exist, small)))
    ⊎ ((h' : Handler) × (view small_page 1 ≢ none)
        × (delete_record 1 small ≡ some (Rc.success, h'))
        × Frees small_page h'.frame 1
        × Logs (delete 1) small h')
delete_record_lem_example = delete_record_lem 1 small small-IsValid (omega arith)

-- One record in the first slot.
abbrev filled : Handler
unfolding append_log store with_bitmap Bitmap.set_bit
filled =
    let marked = with_bitmap (Bitmap.set_bit (bitmap_of small_page) 0) 1 small_page in
    let logged = append_log (insert 0 five_six) (record small { frame = marked }) in
    record logged { frame = store 0 five_six logged.frame }

filled-insert : insert_record five_six small ≡ some (Rc.success, some 0, filled)
unfolding insert_record insert_at append_log store with_bitmap Bitmap.set_bit
    Bitmap.next_unsetted_bit Bitmap.bytes_for Bitmap.scan Bitmap.within Bitmap.find_first_zero
    Bitmap.find_first Bitmap.bit_of
filled-insert = refl

filled-Run : Run small filled
filled-Run = then_step start (insertion five_six refl filled-insert)

-- Replay over the page as it was before the run.
replay-Run_example :
    (written : List LogEntry) × (filled.log.entries ≡ [] ++ written)
    × (replay_all written small_page ≡ some (Rc.success, filled.frame))
replay-Run_example = replay-Run small-IsValid (omega arith) start filled-Run

abbrev no_record : Record
no_record = record { slot_num = none; bytes = [] }

scan_page-records_example :
    scan_page 2 filled.frame (init filled.frame 0) no_record ≡ some (records_from filled.frame 0 2)
unfolding filled
scan_page-records_example = scan_page-records filled.frame 2 0 no_record (omega arith)

scan_of_filled :
    scan_page 2 filled.frame (init filled.frame 0) no_record
    ≡ some (record { slot_num = some 0; bytes = five_six } ∷ [])
unfolding records_from view filled Bitmap.get_bit slot_data read write
scan_of_filled = scan_page-records filled.frame 2 0 no_record (omega arith)
