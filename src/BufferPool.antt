-- ===== src/BufferPool.antt =====
-- The pages of a file in DiskBufferPool (src/observer/storage/buffer/disk_buffer_pool.cpp), the log of
-- their allocation (buffer_pool_log.cpp) and its replay. The bitmap of the header page has room for
-- the greatest number of pages.
pub mod Allocate
pub mod Recovery
pub mod Redo
pub mod Steps
pub mod Valid
mod Tests
use miniob4cqu_db_exp.Common.{
  ℕ, zero, suc, ◌+◌, ◌-◌, Bool, true, false, Rc, Option, none, some, List, [], ◌∷◌, ◌++◌, ltb, leb,
  ◌==◌, if◌then◌else◌,
}
use miniob4cqu_db_exp.Bitmap.{Bitmap, get_bit, set_bit, clear_bit, next_setted_bit}

-- (BP_PAGE_DATA_SIZE - 12) * 8
abbrev pub max_page_num : ℕ
max_page_num = 65344

-- BPFileHeader, with the log sequence number of its frame.
pub record Header : Type 0 where
  pub page_count : ℕ
  pub allocated_pages : ℕ
  pub bitmap : Bitmap
  pub lsn : ℕ

pub data Operation : Type 0 where
  allocate deallocate : ℕ → Operation

-- The log handler gives the entries ascending numbers.
pub record Pool : Type 0 where
  pub header : Header
  pub log : List (ℕ × Operation)
  pub next_lsn : ℕ

-- The append to the log, which succeeds, and `set_lsn` of the header's frame.
abbrev pub append_log : Operation → Pool → Pool
append_log o s = record {
  header = record s.header { lsn = s.next_lsn };
  log = s.log ++ (s.next_lsn, o) ∷ [];
  next_lsn = s.next_lsn + 1;
}

abbrev pub with_page : ℕ → Header → Header
with_page p h = record h { allocated_pages = h.allocated_pages + 1; bitmap = set_bit h.bitmap p }

-- `allocated_pages` is never 0 here, since the header page is allocated.
abbrev pub without_page : ℕ → Header → Header
without_page p h = record h {
  allocated_pages = h.allocated_pages - 1;
  bitmap = clear_bit h.bitmap p;
}

-- The loop of `allocate_page` from page `i` on, with the rounds that are left.
unfoldable pub first_free : ℕ → ℕ → Bitmap → Option ℕ
first_free zero i b = none
first_free (suc rounds) i b =
    let rest = first_free rounds (i + 1) b in if get_bit b i then rest else some i

abbrev pub is_success : Rc → Bool
is_success Rc.success = true
is_success _ = false

-- The file grows by a page; `frame_rc` is the code of `allocate_frame`. The code, the page whose
-- frame is handed out, and the pool.
unfoldable pub extend : Rc → Pool → Rc × Option ℕ × Pool
extend frame_rc s =
    let p = s.header.page_count in
    let logged = append_log (allocate p) s in
    if leb max_page_num p
    then (Rc.bufferpool_nobuf, none, s)
    else if is_success frame_rc
    then (
      Rc.success,
      some p,
      record logged { header = with_page p (record logged.header { page_count = p + 1 }) },
    )
    else (frame_rc, none, logged)

-- `allocate_page`; `get_this_page` is the code of the call that loads a page that was free, which
-- hands out no frame if it fails.
unfoldable pub allocate_page : (ℕ → Rc) → Rc → Pool → Rc × Option ℕ × Pool
unfolding first_free extend
allocate_page get_this_page frame_rc s =
    if ltb s.header.allocated_pages s.header.page_count
    then elim (first_free s.header.page_count 0 s.header.bitmap) [
      | none ↦ extend frame_rc s
      | some p ↦
          let marked = record s { header = with_page p s.header } in
          (
            get_this_page p,
            if is_success (get_this_page p) then some p else none,
            append_log (allocate p) marked,
          )
    ]
    else extend frame_rc s

-- `dispose_page`, on a page that is not in use.
unfoldable pub dispose_page : ℕ → Pool → Rc × Pool
dispose_page p s =
    let logged = append_log (deallocate p) s in
    if p == 0
    then (Rc.internal, s)
    else (Rc.success, record logged { header = without_page p logged.header })

unfoldable pub check_page_num : ℕ → Header → Rc
check_page_num p h =
    if leb h.page_count p
    then Rc.bufferpool_invalid_page_num
    else if get_bit h.bitmap p
    then Rc.success
    else Rc.bufferpool_invalid_page_num

unfoldable pub redo_allocate_page : ℕ → ℕ → Header → Rc × Header
redo_allocate_page lsn p h =
    if leb lsn h.lsn
    then (Rc.success, h)
    else if ltb p h.page_count
    then (if get_bit h.bitmap p then (Rc.success, h) else (Rc.success, with_page p h))
    else if ltb h.page_count p
    then (Rc.internal, h)
    else if leb max_page_num h.page_count
    then (Rc.internal, h)
    else (Rc.success, with_page p (record h { page_count = h.page_count + 1; lsn = lsn }))

unfoldable pub redo_deallocate_page : ℕ → ℕ → Header → Rc × Header
redo_deallocate_page lsn p h =
    if leb lsn h.lsn
    then (Rc.success, h)
    else if leb h.page_count p
    then (Rc.internal, h)
    else if get_bit h.bitmap p
    then (Rc.success, without_page p (record h { lsn = lsn }))
    else (Rc.internal, h)

-- BufferPoolLogReplayer::replay of an entry.
unfoldable pub replay_entry : ℕ × Operation → Header → Rc × Header
unfolding redo_allocate_page redo_deallocate_page
replay_entry (lsn, allocate p) h = redo_allocate_page lsn p h
replay_entry (lsn, deallocate p) h = redo_deallocate_page lsn p h

-- The entries of a log, up to the first that fails.
unfoldable pub replay : List (ℕ × Operation) → Header → Rc × Header
unfolding replay_entry
replay [] h = (Rc.success, h)
replay (e ∷ log) h =
    let (rc, h') = replay_entry e h in
    let rest = replay log h' in if is_success rc then rest else (rc, h')
