-- ===== src/BufferPool/Tests.antt =====
-- A file with its header page.
use miniob4cqu_db_exp.Common.{ℕ, ◌<◌, ◌≡◌, refl, Rc, none, some, [], arith, true, ◌⊎◌}
use miniob4cqu_db_exp.Bitmap.{get_bit}
use miniob4cqu_db_exp.BufferPool.{max_page_num, Header, Pool, with_page, allocate_page, replay}
use miniob4cqu_db_exp.BufferPool.Valid.{IsValid, extended-IsValid, no_pages, no_pages-IsValid}
use miniob4cqu_db_exp.BufferPool.Allocate.{Allocated, allocate_page-Allocated}
use miniob4cqu_db_exp.BufferPool.Recovery.{replay-PoolRun}
use miniob4cqu_db_exp.BufferPool.Steps.{start, then_steps, allocates}

abbrev loads : ℕ → Rc
loads p = Rc.success

-- The header page is allocated.
abbrev one : Pool
one = record {
  header = with_page 0 (record no_pages { page_count = 1; lsn = 0 });
  log = [];
  next_lsn = 1;
}

one-IsValid : IsValid one.header
one-IsValid = extended-IsValid no_pages 0 no_pages-IsValid (omega arith)

abbrev two : Pool
two = (allocate_page loads Rc.success one).2

replay-PoolRun_example :
    (h : Header) × (replay two.log one.header ≡ (Rc.success, h))
    × (h.page_count ≡ two.header.page_count)
    × (h.allocated_pages ≡ two.header.allocated_pages)
    × (h.bitmap ≡ two.header.bitmap)
    × IsValid two.header
replay-PoolRun_example = replay-PoolRun one two one-IsValid tt (omega arith) (
    then_steps start (
      allocates loads (allocate_page loads Rc.success one).0 (allocate_page loads Rc.success one).1
        refl))

allocate_page-Allocated_example :
    ((p : ℕ) × (t : Pool) × (p < 1)
      × ((q : ℕ) → q < p → get_bit one.header.bitmap q ≡ true)
      × (allocate_page loads Rc.success one ≡ (Rc.success, some p, t))
      × Allocated one t p
      × (t.header.page_count ≡ 1))
    ⊎ ((t : Pool) × ((q : ℕ) → q < 1 → get_bit one.header.bitmap q ≡ true)
        × (allocate_page loads Rc.success one ≡ (Rc.success, some 1, t))
        × Allocated one t 1
        × (t.header.page_count ≡ 2))
    ⊎ ((one.header.allocated_pages ≡ max_page_num)
        × (allocate_page loads Rc.success one ≡ (Rc.bufferpool_nobuf, none, one)))
allocate_page-Allocated_example = allocate_page-Allocated loads one one-IsValid
