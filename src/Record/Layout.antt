-- ===== src/Record/Layout.antt =====
-- An empty page: the header, the bitmap, the column index and the records do not overlap, and the
-- records end inside the page (`init_empty_page`, `fix_record_capacity`, `page_record_capacity`).
use miniob4cqu_db_exp.Common.{
  ℕ, zero, suc, ◌+◌, ◌-◌, ◌*◌, ◌/◌, ◌%◌, ◌≤◌, ◌<◌, ◌≡◌, refl, none, List, length, arith, ltb,
  Bool-cases, inl, inr, All-replicate, length-replicate, count_below_none, sym,
}
use miniob4cqu_db_exp.Bitmap.Bits.{IsByte, get_bit-zeros}
use miniob4cqu_db_exp.Record.Page.{
  PageHeader, bp_page_data_size, page_header_size, align8, page_bitmap_size, fix_record_capacity,
  empty_header,
}
use miniob4cqu_db_exp.Record.Log.{Handler, init_empty_page}
use miniob4cqu_db_exp.Record.View.{IsValid, view}

-- The capacity is only lowered, to the largest one whose records end inside the page.
fix_record_capacity_lem :
    (off size cap : ℕ)
    → off ≤ bp_page_data_size
    → (fix_record_capacity off size cap ≤ cap)
      × (off + fix_record_capacity off size cap * size ≤ bp_page_data_size)
unfolding fix_record_capacity
fix_record_capacity_lem off size zero h = omega arith
fix_record_capacity_lem off size (suc cap) h =
    elim (Bool-cases (ltb bp_page_data_size (off + suc cap * size))) [
      | inl over ↦
          let ih = fix_record_capacity_lem off size cap h in rw over (omega (arith, ih.0), ih.1)
      | inr fine ↦ rw fine (omega arith, ground arith)
    ]

-- A record takes at least 65 eighths of a byte.
capacity_bound : (x size : ℕ) → 8 ≤ size → x * 8 / (size * 8 + 1) * 65 ≤ x * 8
capacity_bound x size h =
    let q = x * 8 / (size * 8 + 1) in
    let a : q * (size * 8 + 1) ≤ x * 8 = grind arith in
    let b : q * 65 ≤ q * (size * 8 + 1) = grind arith in omega arith

-- The parts of a page, in order, each behind the one before it and the last inside the page.
pub record IsLaidOut (column_num real_size : ℕ) (h : PageHeader) : Type 0 where
  pub bitmap_room : page_header_size + page_bitmap_size h.record_capacity ≤ h.col_idx_offset
  pub bitmap_bits : h.record_capacity ≤ 8 * page_bitmap_size h.record_capacity
  pub index_room : h.col_idx_offset + column_num * 4 ≡ h.data_offset
  pub records_room : h.data_offset + h.record_capacity * h.record_size ≤ bp_page_data_size
  pub aligned :
      (real_size ≤ h.record_size) × (h.record_size < real_size + 8) × (h.record_size % 8 ≡ 0)

-- For a record size that is not 0, and columns whose index leaves room for the page header: the
-- header, the bitmap, the column index and the records of an empty page stand behind one another
-- in this order, the bitmap has a bit for each record, a record takes its size rounded up to a
-- multiple of 8, and the last record ends inside the page.
pub empty_header-IsLaidOut :
    (real_size column_num : ℕ)
    → 0 < real_size
    → page_header_size + 1 + column_num * 4 ≤ bp_page_data_size
    → IsLaidOut column_num real_size (empty_header real_size column_num)
unfolding empty_header
empty_header-IsLaidOut real_size column_num pos room =
    let size = align8 real_size in
    let x = bp_page_data_size - page_header_size - column_num * 4 - 1 in
    let cap = x * 8 / (size * 8 + 1) in
    let off = align8 (page_header_size + page_bitmap_size cap) + column_num * 4 in
    let bound : cap * 65 ≤ x * 8 = capacity_bound x size (omega arith) in
    let fixed = fix_record_capacity_lem off size cap (omega arith) in
    record {
      bitmap_room = omega (arith, fixed.0);
      bitmap_bits = omega arith;
      index_room = refl;
      records_room = fixed.1;
      aligned = omega arith;
    }

-- A page that `init_empty_page` formats is valid and holds no record.
pub init_empty_page-IsValid :
    (real_size : ℕ) (lens : List ℕ) (h : Handler)
    → 0 < real_size
    → page_header_size + 1 + length lens * 4 ≤ bp_page_data_size
    → length h.frame.area ≡ bp_page_data_size
    → IsValid (init_empty_page real_size lens h).frame
      × ((slot : ℕ) → view (init_empty_page real_size lens h).frame slot ≡ none)
unfolding init_empty_page view
init_empty_page-IsValid real_size lens h pos room whole =
    let laid = empty_header-IsLaidOut real_size (length lens) pos room in
    let header = empty_header real_size (length lens) in
    let cap = header.record_capacity in
    let n = page_bitmap_size cap in
    (
      record {
        bits = record {
          bytes = All-replicate IsByte n 0 (omega arith);
          room = rw (length-replicate {A = ℕ} n 0) laid.bitmap_bits;
        };
        padding = λ j _. get_bit-zeros n cap j;
        counted = sym (count_below_none _ cap (λ j _. get_bit-zeros n cap j));
        aligned = laid.aligned.0;
        fits = rw whole laid.records_room;
      },
      λ slot. rw (get_bit-zeros n cap slot) refl,
    )
