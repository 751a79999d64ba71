-- ===== src/Record/Pool.antt =====
-- The pages of a record file: the header of its DiskBufferPool, and what `get_this_page` finds
-- (src/observer/storage/buffer/disk_buffer_pool.cpp).
use miniob4cqu_db_exp.Common.{
  ℕ, ◌<◌, ◌≡◌, refl, ap, ◌∙◌, true, false, Option, none, some, [], replicate, length-replicate,
  length, Rc, succeeded, ◌==◌, ◌||◌, ◌⊎◌, inl, inr, if◌then◌else◌, ltb, arith, Option-cases,
}
use miniob4cqu_db_exp.Bitmap.{get_bit}
use miniob4cqu_db_exp.BufferPool
use miniob4cqu_db_exp.BufferPool.{Pool, is_success}
use miniob4cqu_db_exp.BufferPool.Valid.{IsValid}
use miniob4cqu_db_exp.BufferPool.Allocate.{allocate_page-Allocated}
use miniob4cqu_db_exp.Record.Page.{Frame, bp_page_data_size}

-- `content` gives the record page behind a number, from a frame or from the file, whether its bit is
-- set or not; for `none` the page cannot be read, which gives the code `page_error`.
pub record Pages : Type 0 where
  pub pool : Pool
  pub content : ℕ → Option Frame
  pub page_error : ℕ → Rc

abbrev pub put : Pages → ℕ → Frame → Pages
put s p f = record s { content = λ q. if p == q then some f else s.content q }

-- The code of `get_this_page`.
abbrev pub get_code : Option Frame → Rc → Rc
get_code none rc = rc
get_code (some f) rc = Rc.success

-- `clear_page` of a new frame.
abbrev pub cleared : Frame
cleared = record {
  lsn = 0;
  dirty = false;
  page_header = record {
    record_num = 0;
    column_num = 0;
    record_real_size = 0;
    record_size = 0;
    record_capacity = 0;
    col_idx_offset = 0;
    data_offset = 0;
  };
  bitmap = [];
  column_index = [];
  area = replicate bp_page_data_size 0;
}

-- The frame that `allocate_page` hands out for a page: of one that was free its content, else a
-- cleared one.
abbrev pub handed : Pages → ℕ → Frame
handed s p =
    if ltb p s.pool.header.page_count
    then elim (s.content p) [ none ↦ cleared | some f ↦ f ]
    else cleared

abbrev pub with_allocated : Pages → Rc × Option ℕ × Pool → Rc × Option (ℕ × Frame) × Pages
with_allocated s (rc, none, pool) = (rc, none, record s { pool = pool })
with_allocated s (rc, some p, pool) =
    (rc, some (p, handed s p), put (record s { pool = pool }) p (handed s p))

-- `allocate_page`: the code, the page with its frame, and the pages. `allocate_frame` ends only with
-- a frame.
unfoldable pub allocate : Pages → Rc × Option (ℕ × Frame) × Pages
allocate s =
    with_allocated s
      (BufferPool.allocate_page (λ p. get_code (s.content p) (s.page_error p)) Rc.success s.pool)

-- What an allocation comes to: a code of failure, with perhaps one page more marked, or a page that
-- was free, with the frame that it had or a cleared one.
pub record Marked (s s' : Pages) : Type 0 where
  pub content : (q : ℕ) → s'.content q ≡ s.content q
  pub errors : (q : ℕ) → s'.page_error q ≡ s.page_error q
  pub stays :
      (q : ℕ) → get_bit s.pool.header.bitmap q ≡ true → get_bit s'.pool.header.bitmap q ≡ true
  pub valid : IsValid s'.pool.header

pub record Given (s s' : Pages) (p : ℕ) (f : Frame) : Type 0 where
  pub was_free : get_bit s.pool.header.bitmap p ≡ false
  pub bits : (q : ℕ) → get_bit s'.pool.header.bitmap q ≡ (p == q || get_bit s.pool.header.bitmap q)
  pub content : (q : ℕ) → s'.content q ≡ (if p == q then some f else s.content q)
  pub errors : (q : ℕ) → s'.page_error q ≡ s.page_error q
  pub frame : (s.content p ≡ some f) ⊎ (length f.area ≡ bp_page_data_size)
  pub valid : IsValid s'.pool.header

pub allocate_lem :
    (s : Pages)
    → IsValid s.pool.header
    → ((p : ℕ) → succeeded (s.page_error p) ≡ false)
    → ((rc : Rc) × (s' : Pages) × (succeeded rc ≡ false)
        × (allocate s ≡ (rc, none, s'))
        × Marked s s')
      ⊎ ((p : ℕ) × (f : Frame) × (s' : Pages) × (allocate s ≡ (Rc.success, some (p, f), s'))
          × Given s s' p f)
unfolding allocate
allocate_lem s v fails =
    elim (allocate_page-Allocated (λ p. get_code (s.content p) (s.page_error p)) s.pool v) [
      | inl (p, t, below, first, e, a, count) ↦ elim (Option-cases (s.content p)) [
        | inl miss ↦ inl (
          s.page_error p,
          record s { pool = t },
          fails p,
          ap (with_allocated s) e ∙ rw miss (failed p t (s.page_error p) (fails p)),
          record {
            content = λ q. refl;
            errors = λ q. refl;
            stays = λ q set. ground (arith, a.bits q, set);
            valid = a.valid;
          },
        )
        | inr (f, found) ↦ inr (
          p,
          f,
          put (record s { pool = t }) p f,
          ap (with_allocated s) e ∙ reused p t f found below,
          record {
            was_free = a.was_free;
            bits = a.bits;
            content = λ q. refl;
            errors = λ q. refl;
            frame = inl found;
            valid = a.valid;
          },
        )
      ]
      | inr (inl (t, all, e, a, count)) ↦
          let p = s.pool.header.page_count in
          inr (
            p,
            cleared,
            put (record s { pool = t }) p cleared,
            ap (with_allocated s) e ∙ extended t,
            record {
              was_free = a.was_free;
              bits = a.bits;
              content = λ q. refl;
              errors = λ q. refl;
              frame = inr (length-replicate {A = ℕ} bp_page_data_size 0);
              valid = a.valid;
            },
          )
      | inr (inr (full, e)) ↦ inl (
        Rc.bufferpool_nobuf,
        s,
        refl,
        ap (with_allocated s) e,
        record { content = λ q. refl; errors = λ q. refl; stays = λ q set. set; valid = v },
      )
    ]
  where
    failed :
        (p : ℕ) (t : Pool) (rc : Rc)
        → succeeded rc ≡ false
        → with_allocated s (rc, (if is_success rc then some p else none), t)
          ≡ (rc, none, record s { pool = t })
    failed p t Rc.success h = ground (arith, h)
    failed p t rc h = refl

    reused :
        (p : ℕ) (t : Pool) (f : Frame)
        → s.content p ≡ some f
        → p < s.pool.header.page_count
        → with_allocated s (
          get_code (s.content p) (s.page_error p),
          (if is_success (get_code (s.content p) (s.page_error p)) then some p else none),
          t,
        )
          ≡ (Rc.success, some (p, f), put (record s { pool = t }) p f)
    reused p t f found below =
        let inside : ltb p s.pool.header.page_count ≡ true = ground (arith, below) in
        let is : handed s p ≡ f = rw inside (from_content (s.content p) found) in
        ap (λ rc. with_allocated s (rc, (if is_success rc then some p else none), t))
          (ap (λ o. get_code o (s.page_error p)) found)
        ∙ ap (λ g. (Rc.success, some (p, g), put (record s { pool = t }) p g)) is
      where
        from_content :
            (o : Option Frame)
            → o ≡ some f
            → (elim o as (λ x. Frame) [ none ↦ cleared | some g ↦ g ]) ≡ f
        from_content none e = ground (arith, e)
        from_content (some g) e = ground (arith, e)

    extended :
        (t : Pool)
        → with_allocated s (Rc.success, some s.pool.header.page_count, t) ≡ (
          Rc.success,
          some (s.pool.header.page_count, cleared),
          put (record s { pool = t }) s.pool.header.page_count cleared,
        )
    extended t =
        let outside : ltb s.pool.header.page_count s.pool.header.page_count ≡ false =
          ground arith in
        rw outside refl
