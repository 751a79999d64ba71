-- ===== src/Record/Page.antt =====
-- The state of a record page, and how it is formatted (record_manager.h, record_manager.cpp).
use miniob4cqu_db_exp.Common.{
  ℕ, zero, suc, ◌+◌, ◌-◌, ◌*◌, ◌/◌, Bool, List, [], ◌∷◌, replicate, ltb, leb, if◌then◌else◌,
}
use miniob4cqu_db_exp.Bitmap.{Bitmap}

pub record PageHeader : Type 0 where
  pub record_num : ℕ
  pub column_num : ℕ
  pub record_real_size : ℕ
  pub record_size : ℕ
  pub record_capacity : ℕ
  pub col_idx_offset : ℕ
  pub data_offset : ℕ

pub record Frame : Type 0 where
  pub lsn : ℕ
  pub dirty : Bool
  pub page_header : PageHeader
  pub bitmap : List ℕ
  pub column_index : List ℕ
  pub area : List ℕ

abbrev pub bitmap_of : Frame → Bitmap
bitmap_of f = record { bytes = f.bitmap; size = f.page_header.record_capacity }

-- sizeof(PageHeader), and BP_PAGE_DATA_SIZE = BP_PAGE_SIZE - sizeof(LSN) - sizeof(CheckSum)
abbrev pub page_header_size : ℕ
page_header_size = 28

abbrev pub bp_page_data_size : ℕ
bp_page_data_size = 8192 - 8 - 4

-- `(size + 7) & ~7`
unfoldable pub align8 : ℕ → ℕ
align8 size = (size + 7) / 8 * 8

-- `(page_size - PAGE_HEADER_SIZE - fixed_size - 1) / (record_size + 0.125)`, rounded down: both
-- sides of the quotient are taken eight times.
unfoldable pub page_record_capacity : ℕ → ℕ → ℕ → ℕ
page_record_capacity page_size record_size fixed_size =
    (page_size - page_header_size - fixed_size - 1) * 8 / (record_size * 8 + 1)

unfoldable pub page_bitmap_size : ℕ → ℕ
page_bitmap_size record_capacity = (record_capacity + 7) / 8

-- The loop of `fix_record_capacity`; it lowers `record_capacity` while the last record passes the
-- end of the page.
unfoldable pub fix_record_capacity : ℕ → ℕ → ℕ → ℕ
fix_record_capacity data_offset record_size zero = zero
fix_record_capacity data_offset record_size (suc capacity) =
    let fewer = fix_record_capacity data_offset record_size capacity in
    if ltb bp_page_data_size (data_offset + suc capacity * record_size) then fewer else suc capacity

-- The header that both `init_empty_page` compute.
unfoldable pub empty_header : ℕ → ℕ → PageHeader
unfolding align8 page_record_capacity page_bitmap_size fix_record_capacity
empty_header real_size column_num =
    let size = align8 real_size in
    let capacity = page_record_capacity bp_page_data_size size (column_num * 4) in
    let index_offset = align8 (page_header_size + page_bitmap_size capacity) in
    let offset = index_offset + column_num * 4 in
    record {
      record_num = 0;
      column_num = column_num;
      record_real_size = real_size;
      record_size = size;
      record_capacity = fix_record_capacity offset size capacity;
      col_idx_offset = index_offset;
      data_offset = offset;
    }

-- The column index: entry i is the end of column i, behind the ends of the columns before it.
unfoldable pub column_ends : ℕ → ℕ → List ℕ → List ℕ
column_ends capacity start [] = []
column_ends capacity start (len ∷ lens) =
    let end = len * capacity + start in end ∷ column_ends capacity end lens

-- `init_empty_page` over a given column index, as the log replayer calls it.
unfoldable pub format_page : Frame → ℕ → ℕ → List ℕ → Frame
unfolding empty_header
format_page f record_size column_num index =
    let header = empty_header record_size column_num in
    record f {
      page_header = header;
      bitmap = replicate (page_bitmap_size header.record_capacity) 0;
      column_index = index;
    }

-- `get_record_data`, as an offset into the frame's bytes.
unfoldable pub record_offset : PageHeader → ℕ → ℕ
record_offset h slot_num = h.data_offset + h.record_size * slot_num

unfoldable pub is_full : Frame → Bool
is_full f = leb f.page_header.record_capacity f.page_header.record_num
