-- ===== src/Record/Change.antt =====
-- `delete_record`, `update_record` and `get_record` of RowRecordPageHandler, on every branch.
use miniob4cqu_db_exp.Common.{
  ℕ, suc, ◌+◌, ◌-◌, ◌/◌, ◌<◌, ◌≡◌, ◌≢◌, refl, true, false, not, ◌&&◌, none, some, List, [], ◌∷◌,
  ◌++◌, length, take-length, ◌⊎◌, Rc, leb, ◌==◌, if◌then◌else◌, arith, Bool-cases, inl, inr,
  count_below, count_below_insert, lt→ltb,
}
use miniob4cqu_db_exp.Bitmap
use miniob4cqu_db_exp.Bitmap.{Bitmap}
use miniob4cqu_db_exp.Bitmap.Bits.{get_bit-clear_bit, clear_bit-IsValid}
use miniob4cqu_db_exp.Record.Page.{Frame, bitmap_of}
use miniob4cqu_db_exp.Record.Log.{
  Operation, Handler, delete, update, append_log, with_bitmap, bit_at, delete_record, update_record,
  get_record,
}
use miniob4cqu_db_exp.Record.View.{IsValid, view, slot_data}
use miniob4cqu_db_exp.Record.Insert.{Holds, Holds-lsn, Holds-taken, view-free, view-taken}

-- What a successful change leaves in the log.
abbrev pub Logs : Operation → Handler → Handler → Type 0
Logs op h h' =
    (h'.log.entries ≡ h.log.entries ++ record { lsn = suc h.log.current_lsn; operation = op } ∷ [])
    × (h'.frame.lsn ≡ suc h.log.current_lsn)
    × (h'.log.current_lsn ≡ suc h.log.current_lsn)

-- The page `g` is `f` with the slot made free.
pub record Frees (f g : Frame) (slot : ℕ) : Type 0 where
  pub valid : IsValid g
  pub views : (j : ℕ) → view g j ≡ (if slot == j then none else view f j)
  pub fewer : g.page_header.record_num + 1 ≡ f.page_header.record_num
  pub real_size : g.page_header.record_real_size ≡ f.page_header.record_real_size

module _ (slot : ℕ) (h : Handler) (v : IsValid h.frame)
    (inside : slot < h.frame.page_header.record_capacity) where
  cleared : Frame
  unfolding with_bitmap
  cleared =
      with_bitmap (Bitmap.clear_bit (bitmap_of h.frame) slot) (h.frame.page_header.record_num - 1)
        h.frame

  after_delete : Handler
  unfolding append_log cleared
  after_delete = append_log (delete slot) (record h { frame = record cleared { dirty = true } })

  cleared_bit :
      (j : ℕ)
      → Bitmap.get_bit (bitmap_of cleared) j
        ≡ (not (slot == j) && Bitmap.get_bit (bitmap_of h.frame) j)
  unfolding cleared Bitmap.clear_bit
  cleared_bit = get_bit-clear_bit (bitmap_of h.frame) v.bits slot inside

  less_one :
      Bitmap.get_bit (bitmap_of h.frame) slot ≡ true
      → count_below (Bitmap.get_bit (bitmap_of h.frame)) h.frame.page_header.record_capacity
        ≡ count_below (Bitmap.get_bit (bitmap_of cleared)) h.frame.page_header.record_capacity + 1
  less_one taken =
      count_below_insert (Bitmap.get_bit (bitmap_of cleared)) (Bitmap.get_bit (bitmap_of h.frame))
        slot _ inside (ground (arith, cleared_bit slot)) (λ j. ground (arith, cleared_bit j))

  after_delete-Frees :
      Bitmap.get_bit (bitmap_of h.frame) slot ≡ true → Frees h.frame after_delete.frame slot
  unfolding after_delete view slot_data
  after_delete-Frees taken = record {
    valid = record {
      bits = unfold Bitmap.clear_bit in clear_bit-IsValid (bitmap_of h.frame) v.bits slot inside;
      padding = λ j above. ground (arith, cleared_bit j, v.padding j above);
      counted = omega (arith, v.counted, less_one taken);
      aligned = v.aligned;
      fits = v.fits;
    };
    views = λ j. ground (arith, cleared_bit j);
    fewer = omega (arith, v.counted, less_one taken);
    real_size = refl;
  }

  bit_at-inside : bit_at h.frame slot ≡ some (Bitmap.get_bit (bitmap_of h.frame) slot)
  unfolding bit_at
  bit_at-inside = rw (lt→ltb (slot / 8) (length h.frame.bitmap) (omega (arith, v.bits.room))) refl

  -- On a valid page and a slot below the capacity, `delete_record` refuses a free slot with
  -- RECORD_NOT_EXIST and changes nothing; a taken slot it frees, with every other slot and the
  -- invariant kept and the operation logged.
  pub delete_record_lem :
      ((view h.frame slot ≡ none) × (delete_record slot h ≡ some (Rc.record_not_exist, h)))
      ⊎ ((h' : Handler) × (view h.frame slot ≢ none)
          × (delete_record slot h ≡ some (Rc.success, h'))
          × Frees h.frame h'.frame slot
          × Logs (delete slot) h h')
  unfolding delete_record after_delete
  delete_record_lem = elim (Bool-cases (Bitmap.get_bit (bitmap_of h.frame) slot)) [
    | inl taken ↦ inr (
      after_delete,
      view-taken h.frame slot taken,
      rw (bit_at-inside, taken) refl,
      after_delete-Frees taken,
      (refl, refl, refl),
    )
    | inr free ↦ inl (view-free h.frame slot free, rw (bit_at-inside, free) refl)
  ]

  -- On a valid page and a slot below the capacity, for data of the record size: `update_record`
  -- refuses a free slot with RECORD_NOT_EXIST and changes nothing; a taken slot it overwrites,
  -- with every other slot and the invariant kept and the operation logged.
  pub update_record_lem :
      (bytes : List ℕ)
      → length bytes ≡ h.frame.page_header.record_real_size
      → ((view h.frame slot ≡ none) × (update_record slot bytes h ≡ (Rc.record_not_exist, h)))
        ⊎ ((h' : Handler) × (view h.frame slot ≢ none)
            × (update_record slot bytes h ≡ (Rc.success, h'))
            × Holds h.frame h'.frame slot bytes
            × Logs (update slot bytes) h h')
  unfolding update_record
  update_record_lem bytes whole = elim (Bool-cases (Bitmap.get_bit (bitmap_of h.frame) slot)) [
    | inl taken ↦ inr (
      _,
      view-taken h.frame slot taken,
      rw (below, taken, take-length _ bytes whole) refl,
      Holds-lsn (suc h.log.current_lsn) (Holds-taken h.frame v slot bytes inside whole taken),
      (refl, refl, refl),
    )
    | inr free ↦ inl (view-free h.frame slot free, rw (below, free) refl)
  ]
    where
      below : leb h.frame.page_header.record_capacity slot ≡ false
      below = ground arith

-- `get_record` refuses a slot at or past the capacity with RECORD_INVALID_RID; below it, it returns
-- what the slot holds, or RECORD_NOT_EXIST for a free slot.
pub get_record-view :
    (slot : ℕ) (f : Frame)
    → get_record slot f ≡ (
        if leb f.page_header.record_capacity slot
        then (Rc.record_invalid_rid, none)
        else elim (view f slot) [
          | none ↦ (Rc.record_not_exist, none)
          | some bytes ↦ (Rc.success, some bytes)
        ])
unfolding get_record view slot_data
get_record-view slot f = ground arith
