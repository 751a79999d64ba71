-- ===== src/Record/Insert.antt =====
-- `insert_record` and `recover_insert_record` of RowRecordPageHandler, on every branch.
use miniob4cqu_db_exp.Common.{
  ℕ, suc, ◌+◌, ◌≤◌, ◌<◌, ◌≡◌, ◌≢◌, refl, true, false, not, ◌||◌, none, some, List, [], ◌∷◌, ◌++◌,
  length, take, take-length, ◌∙◌, ◌⊎◌, Rc, leb, ◌==◌, if◌then◌else◌, arith, Bool-cases,
  Option-cases, inl, inr, ==_iff, count_below_insert, count_below_all, count_below-le, length-write,
  leb→le,
}
use miniob4cqu_db_exp.Bitmap
use miniob4cqu_db_exp.Bitmap.{Bitmap}
use miniob4cqu_db_exp.Bitmap.Bits.{get_bit-set_bit, set_bit-IsValid}
use miniob4cqu_db_exp.Bitmap.Search.{IsFirst, next_unsetted_bit-IsFirst}
use miniob4cqu_db_exp.Record.Page.{Frame, bitmap_of, record_offset}
use miniob4cqu_db_exp.Record.Log.{
  Handler, insert, append_log, store, with_bitmap, insert_record, recover_insert_record,
}
use miniob4cqu_db_exp.Record.View.{
  IsValid, view, slot_data, slot_data-store_self, slot_data-store_ne,
}

-- The frame `g` is `f` with `bytes` written to the slot.
pub record Holds (f g : Frame) (slot : ℕ) (bytes : List ℕ) : Type 0 where
  pub valid : IsValid g
  pub views : (j : ℕ) → view g j ≡ (if slot == j then some bytes else view f j)
  pub capacity : g.page_header.record_capacity ≡ f.page_header.record_capacity
  pub real_size : g.page_header.record_real_size ≡ f.page_header.record_real_size

module _ (f : Frame) (v : IsValid f) (slot : ℕ) (bytes : List ℕ)
    (inside : slot < f.page_header.record_capacity)
    (whole : length bytes ≡ f.page_header.record_real_size) where
  abbrev marked : Frame
  marked = with_bitmap (Bitmap.set_bit (bitmap_of f) slot) (f.page_header.record_num + 1) f

  marked_bit :
      (j : ℕ) → Bitmap.get_bit (bitmap_of marked) j ≡ (slot == j || Bitmap.get_bit (bitmap_of f) j)
  unfolding with_bitmap Bitmap.set_bit
  marked_bit = get_bit-set_bit (bitmap_of f) v.bits slot inside

  data_marked : (j : ℕ) → slot_data (store slot bytes marked) j ≡ slot_data (store slot bytes f) j
  unfolding slot_data store with_bitmap
  data_marked j = refl

  -- A free slot is marked and then written.
  pub Holds-free :
      Bitmap.get_bit (bitmap_of f) slot ≡ false → Holds f (store slot bytes marked) slot bytes
  unfolding store with_bitmap view
  Holds-free free = record {
    valid = record {
      bits = unfold Bitmap.set_bit in set_bit-IsValid (bitmap_of f) v.bits slot inside;
      padding = λ j above. ground (arith, marked_bit j, v.padding j above);
      counted = omega (
        arith,
        v.counted,
        count_below_insert (Bitmap.get_bit (bitmap_of f)) (Bitmap.get_bit (bitmap_of marked)) slot
            f.page_header.record_capacity inside free marked_bit,
      );
      aligned = v.aligned;
      fits = rw (length-write f.area (record_offset f.page_header slot) _) v.fits;
    };
    views = λ j. ground (
      arith,
      marked_bit j,
      data_marked j,
      slot_data-store_self f v slot bytes inside whole,
      slot_data-store_ne f v slot bytes inside whole j,
    );
    capacity = refl;
    real_size = refl;
  }

  -- A taken slot is written again.
  pub Holds-taken :
      Bitmap.get_bit (bitmap_of f) slot ≡ true → Holds f (store slot bytes f) slot bytes
  unfolding store view
  Holds-taken taken = record {
    valid = record {
      bits = v.bits;
      padding = v.padding;
      counted = v.counted;
      aligned = v.aligned;
      fits = rw (length-write f.area (record_offset f.page_header slot) _) v.fits;
    };
    views = λ j. ground (
      arith,
      slot_data-store_self f v slot bytes inside whole,
      slot_data-store_ne f v slot bytes inside whole j,
    );
    capacity = refl;
    real_size = refl;
  }

-- The log sequence number of a frame is no part of what the page holds.
pub Holds-lsn :
    {f g : Frame} {slot : ℕ} {bytes : List ℕ} (lsn : ℕ)
    → Holds f g slot bytes
    → Holds f (record g { lsn = lsn }) slot bytes
unfolding view slot_data
Holds-lsn lsn h = record {
  valid = record {
    bits = h.valid.bits;
    padding = h.valid.padding;
    counted = h.valid.counted;
    aligned = h.valid.aligned;
    fits = h.valid.fits;
  };
  views = h.views;
  capacity = h.capacity;
  real_size = h.real_size;
}

-- What a successful `insert_record` leaves: the record in the first free slot, logged under the
-- next number, which the frame carries.
pub record Inserted (bytes : List ℕ) (h h' : Handler) (slot : ℕ) : Type 0 where
  pub inside : slot < h.frame.page_header.record_capacity
  pub was_free : view h.frame slot ≡ none
  pub lower_taken : (j : ℕ) → j < slot → view h.frame j ≢ none
  pub holds : Holds h.frame h'.frame slot bytes
  pub logged :
      h'.log.entries
      ≡ h.log.entries ++ record { lsn = suc h.log.current_lsn; operation = insert slot bytes } ∷ []
  pub numbered :
      (h'.frame.lsn ≡ suc h.log.current_lsn) × (h'.log.current_lsn ≡ suc h.log.current_lsn)

after_insert : ℕ → List ℕ → Handler → Handler
unfolding append_log store with_bitmap
after_insert slot bytes h =
    let marked =
      with_bitmap (Bitmap.set_bit (bitmap_of h.frame) slot) (h.frame.page_header.record_num + 1)
        h.frame in
    let logged =
      append_log (insert slot (take h.frame.page_header.record_real_size bytes))
        (record h { frame = marked }) in
    record logged { frame = store slot bytes logged.frame }

ne_of_test : (a b : ℕ) → (a == b) ≡ false → a ≢ b
ne_of_test a b h = ground arith

pub view-free :
    (f : Frame) (slot : ℕ) → Bitmap.get_bit (bitmap_of f) slot ≡ false → view f slot ≡ none
unfolding view
view-free f slot free = rw free refl

pub view-taken :
    (f : Frame) (slot : ℕ) → Bitmap.get_bit (bitmap_of f) slot ≡ true → view f slot ≢ none
unfolding view
view-taken f slot taken = rw taken (λ e. cc)

module _ (bytes : List ℕ) (h : Handler) (v : IsValid h.frame)
    (whole : length bytes ≡ h.frame.page_header.record_real_size) where
  after_insert-Inserted :
      (slot : ℕ)
      → IsFirst
          (λ j. not (Bitmap.get_bit (bitmap_of h.frame) j))
          0
          h.frame.page_header.record_capacity
          (some slot)
      → Inserted bytes h (after_insert slot bytes h) slot
  unfolding after_insert
  after_insert-Inserted slot first =
      let free : Bitmap.get_bit (bitmap_of h.frame) slot ≡ false = ground arith in
      record {
        inside = first.1;
        was_free = view-free h.frame slot free;
        lower_taken = λ j lt. view-taken h.frame j (ground (arith, first.3 j));
        holds =
            Holds-lsn (suc h.log.current_lsn) (Holds-free h.frame v slot bytes first.1 whole free);
        logged = rw (take-length _ bytes whole) refl;
        numbered = (refl, refl);
      }

  -- On a valid page, for data of the record size: `insert_record` refuses a full page with
  -- RECORD_NOMEM and changes nothing; else it writes the record to the first free slot, keeps every
  -- other slot and the page's invariant, logs the operation, and returns the slot.
  pub insert_record_lem :
      ((h.frame.page_header.record_num ≡ h.frame.page_header.record_capacity)
        × (insert_record bytes h ≡ some (Rc.record_nomem, none, h)))
      ⊎ ((slot : ℕ) × (h' : Handler) × (h.frame.page_header.record_num
            < h.frame.page_header.record_capacity)
          × (insert_record bytes h ≡ some (Rc.success, some slot, h'))
          × Inserted bytes h h' slot)
  unfolding insert_record after_insert
  insert_record_lem = elim (Bool-cases (num == cap)) [
    | inl full ↦ inl ((==_iff num cap).0 full, rw full refl)
    | inr room ↦
        let first = next_unsetted_bit-IsFirst (bitmap_of h.frame) 0 in
        elim (Option-cases (Bitmap.next_unsetted_bit (bitmap_of h.frame) 0)) [
          | inl miss ↦
              let all : num ≡ cap =
                v.counted
                ∙ count_below_all (Bitmap.get_bit (bitmap_of h.frame)) cap
                    (λ j lt. ground (arith, (rw miss at first) j)) in
              absurd (ground arith)
          | inr (slot, hit) ↦ inr (
            slot,
            after_insert slot bytes h,
            omega (
              arith,
              v.counted,
              count_below-le (Bitmap.get_bit (bitmap_of h.frame)) cap,
              ne_of_test num cap room,
            ),
            rw (room, hit) refl,
            after_insert-Inserted slot (rw hit at first),
          )
        ]
  ]
    where
      num : ℕ
      num = h.frame.page_header.record_num

      cap : ℕ
      cap = h.frame.page_header.record_capacity

-- `recover_insert_record` refuses a slot at or past the capacity and changes nothing; else it leaves
-- the record in that slot, free or not, with every other slot and the invariant kept.
pub recover_insert_record_lem :
    (f : Frame) (slot : ℕ) (bytes : List ℕ)
    → IsValid f
    → length bytes ≡ f.page_header.record_real_size
    → ((f.page_header.record_capacity ≤ slot)
        × (recover_insert_record bytes slot f ≡ (Rc.record_invalid_rid, f)))
      ⊎ ((slot < f.page_header.record_capacity)
          × ((recover_insert_record bytes slot f).0 ≡ Rc.success)
          × Holds f (recover_insert_record bytes slot f).1 slot bytes)
unfolding recover_insert_record
recover_insert_record_lem f slot bytes v whole =
    elim (Bool-cases (leb f.page_header.record_capacity slot)) [
      | inl past ↦ inl (leb→le _ _ past, rw past refl)
      | inr inside ↦
          let lt : slot < f.page_header.record_capacity = ground arith in
          elim (Bool-cases (Bitmap.get_bit (bitmap_of f) slot)) [
            | inl taken ↦
                inr (
                  lt,
                  rw inside refl,
                  rw (inside, taken) (Holds-taken f v slot bytes lt whole taken),
                )
            | inr free ↦
                inr
                  (lt, rw inside refl, rw (inside, free) (Holds-free f v slot bytes lt whole free))
          ]
    ]
