-- ===== src/Record/View.antt =====
-- What a page holds, as a map from slots to records, and the invariant of a page.
use native.Mathlib.Decide.{dec_lt}
use miniob4cqu_db_exp.Common.{
  ℕ, ◌+◌, ◌*◌, ◌≤◌, ◌<◌, ◌≡◌, ◌≢◌, false, Option, none, some, List, length, if◌then◌else◌, read,
  count_below, arith, read-write_self, read-write_after, read-write_before, take-length,
}
use miniob4cqu_db_exp.Bitmap
use miniob4cqu_db_exp.Bitmap.Bits
use miniob4cqu_db_exp.Record.Page.{Frame, bitmap_of, record_offset}
use miniob4cqu_db_exp.Record.Log.{store}

-- The bytes of a slot.
unfoldable pub slot_data : Frame → ℕ → List ℕ
unfolding record_offset
slot_data f slot = read f.area (record_offset f.page_header slot) f.page_header.record_real_size

-- The record in a slot, if the slot is taken.
unfoldable pub view : Frame → ℕ → Option (List ℕ)
view f slot = if Bitmap.get_bit (bitmap_of f) slot then some (slot_data f slot) else none

pub record IsValid (f : Frame) : Type 0 where
  pub bits : Bits.IsValid (bitmap_of f)
  pub padding : (j : ℕ) → f.page_header.record_capacity ≤ j → Bitmap.get_bit (bitmap_of f) j ≡ false
  pub counted :
      f.page_header.record_num
      ≡ count_below (Bitmap.get_bit (bitmap_of f)) f.page_header.record_capacity
  pub aligned : f.page_header.record_real_size ≤ f.page_header.record_size
  pub fits :
      f.page_header.data_offset + f.page_header.record_capacity * f.page_header.record_size
      ≤ length f.area

slot_end : (off size cap slot : ℕ) → slot < cap → off + size * slot + size ≤ off + cap * size
slot_end off size cap slot h = grind arith

slot_before : (size i j : ℕ) → i < j → size * i + size ≤ size * j
slot_before size i j h = grind arith

module _ (f : Frame) (v : IsValid f) (slot : ℕ) (bytes : List ℕ)
    (inside : slot < f.page_header.record_capacity)
    (whole : length bytes ≡ f.page_header.record_real_size) where
  -- A stored record is read back.
  pub slot_data-store_self : slot_data (store slot bytes f) slot ≡ bytes
  unfolding slot_data store
  slot_data-store_self =
      let off = record_offset f.page_header slot in
      rw (take-length _ bytes whole, ← whole)
        (read-write_self f.area off bytes (
          unfold record_offset in
          omega (
            arith,
            v.aligned,
            v.fits,
            slot_end f.page_header.data_offset f.page_header.record_size
                f.page_header.record_capacity slot inside,
          )))

  -- The bytes of another slot are not touched.
  pub slot_data-store_ne : (j : ℕ) → slot ≢ j → slot_data (store slot bytes f) j ≡ slot_data f j
  unfolding slot_data store
  slot_data-store_ne j ne =
      let h = f.page_header in
      rw (take-length _ bytes whole) (elim (dec_lt j slot) [
        | yes before ↦
            read-write_before f.area (record_offset h slot) (record_offset h j) h.record_real_size
              bytes
              (unfold record_offset in
                omega (arith, v.aligned, slot_before h.record_size j slot before))
        | no after ↦
            read-write_after f.area (record_offset h slot) (record_offset h j) h.record_real_size
              bytes
              (unfold record_offset in
                omega (arith, v.aligned, slot_before h.record_size slot j (omega arith)))
      ])
