-- ===== src/Record/Iterate.antt =====
-- RecordPageIterator (record_manager.cpp), and the loop in which HeapRecordScanner uses it
-- (heap_record_scanner.cpp, with no filter and no transaction).
use mathlib.Core.Option
use native.Mathlib.Decide.{dec_lt}
use miniob4cqu_db_exp.Common.{
  ℕ, zero, suc, ◌+◌, ◌-◌, ◌≤◌, ◌<◌, ◌≡◌, refl, ap, Bool, true, false, Option, none, some, List, [],
  ◌∷◌, ◌∙◌, Rc, leb, arith,
}
use miniob4cqu_db_exp.Bitmap
use miniob4cqu_db_exp.Bitmap.Search.{IsFirst, next_setted_bit-IsFirst}
use miniob4cqu_db_exp.Record.Page.{Frame, bitmap_of}
use miniob4cqu_db_exp.Record.Log.{get_record}
use miniob4cqu_db_exp.Record.View.{view, slot_data}

-- A Record: its slot, -1 being `none`, and its bytes.
pub record Record : Type 0 where
  pub slot_num : Option ℕ
  pub bytes : List ℕ

-- The iterator is its `next_slot_num_`; its bitmap is the page's own.
unfoldable pub init : Frame → ℕ → Option ℕ
init f start_slot_num = Bitmap.next_setted_bit (bitmap_of f) start_slot_num

unfoldable pub has_next : Option ℕ → Bool
has_next none = false
has_next (some i) = true

-- `get_record` sets the record only where it succeeds.
unfoldable pub fill : ℕ → Option (List ℕ) → Record → Record
fill slot none r = r
fill slot (some bytes) r = record { slot_num = some slot; bytes = bytes }

-- `next`, at the slot that `has_next` promised: the code, the record and the iterator.
unfoldable pub next : Frame → ℕ → Record → Rc × Record × Option ℕ
unfolding fill
next f slot r =
    let r' = fill slot (get_record slot f).1 r in
    (
      elim r'.slot_num [ none ↦ Rc.record_eof | some i ↦ Rc.success ],
      r',
      Bitmap.next_setted_bit (bitmap_of f) (slot + 1),
    )

-- The body of the loop, behind the call of `next`: an error ends the scan.
abbrev scan_after :
    Rc × Record × Option ℕ → (Option ℕ → Record → Option (List Record)) → Option (List Record)
scan_after (Rc.success, r, it) rest = Option.map (◌∷◌ r) (rest it r)
scan_after (rc, r, it) rest = some []

-- `while (has_next()) { next(record); ... }`, with fuel; `none` means that the fuel ran out.
unfoldable pub scan_page : ℕ → Frame → Option ℕ → Record → Option (List Record)
scan_page fuel f none r = some []
scan_page zero f (some slot) r = none
scan_page (suc fuel) f (some slot) r = scan_after (next f slot r) (scan_page fuel f)

-- The records of the slots from `lo` on, of `rounds` slots, in the order of the slots.
unfoldable pub records_from : Frame → ℕ → ℕ → List Record
records_from f lo zero = []
records_from f lo (suc rounds) =
    let rest = records_from f (suc lo) rounds in
    elim (view f lo) [
      | none ↦ rest
      | some bytes ↦ record { slot_num = some lo; bytes = bytes } ∷ rest
    ]

module _ (f : Frame) where
  abbrev cap : ℕ
  cap = f.page_header.record_capacity

  records_from-free :
      (lo n : ℕ)
      → ((j : ℕ) → lo ≤ j → j < lo + n → Bitmap.get_bit (bitmap_of f) j ≡ false)
      → records_from f lo n ≡ []
  unfolding records_from view
  records_from-free lo zero h = refl
  records_from-free lo (suc n) h =
      rw (h lo (omega arith) (omega arith), records_from, view)
        (records_from-free (suc lo) n (λ j a b. h j (omega arith) (omega arith)))

  -- The slots from `lo` up to the first one that is taken hold nothing.
  records_from-first :
      (lo n i : ℕ)
      → lo ≤ i
      → i < lo + n
      → Bitmap.get_bit (bitmap_of f) i ≡ true
      → ((j : ℕ) → lo ≤ j → j < i → Bitmap.get_bit (bitmap_of f) j ≡ false)
      → records_from f lo n
        ≡ record { slot_num = some i; bytes = slot_data f i }
          ∷ records_from f (suc i) (lo + n - suc i)
  unfolding records_from view
  records_from-first lo zero i a b taken low = absurd (omega arith)
  records_from-first lo (suc n) i a b taken low = elim (dec_lt lo i) [
    | yes before ↦
        rw (low lo (omega arith) before, records_from, view)
          (records_from-first (suc lo) n i before (omega arith) taken
              (λ j c d. low j (omega arith) d)
            ∙ (let r : Record = record { slot_num = some i; bytes = slot_data f i } in
                ap (λ (k : ℕ). r ∷ records_from f (suc i) k) (omega arith)))
    | no here ↦
        let e : lo ≡ i = omega arith in
        let k : lo + suc n - suc i ≡ n = omega arith in
        let t : Bitmap.get_bit (bitmap_of f) lo ≡ true = rw e taken in
        rw (k, t, records_from, view)
          (ap
            (λ (j : ℕ).
              let r : Record = record { slot_num = some j; bytes = slot_data f j } in
              r ∷ records_from f (suc j) n)
            e)
  ]

  next-some :
      (i : ℕ) (r : Record)
      → i < cap
      → Bitmap.get_bit (bitmap_of f) i ≡ true
      → next f i r
        ≡ (Rc.success, record { slot_num = some i; bytes = slot_data f i }, init f (suc i))
  unfolding next init get_record slot_data
  next-some i r lt taken =
      let below : leb cap i ≡ false = ground arith in
      rw (below, taken)
        (ap
          (λ (k : ℕ). (
            Rc.success,
            record { slot_num = some i; bytes = slot_data f i },
            Bitmap.next_setted_bit (bitmap_of f) k,
          ))
          (omega arith))

  nothing_from :
      (fuel lo : ℕ) (r : Record)
      → IsFirst (Bitmap.get_bit (bitmap_of f)) lo cap none
      → scan_page fuel f none r ≡ some (records_from f lo (cap - lo))
  unfolding scan_page
  nothing_from zero lo r h =
      rw (records_from-free lo (cap - lo) (λ j a b. h j a (omega arith))) refl
  nothing_from (suc fuel) lo r h =
      rw (records_from-free lo (cap - lo) (λ j a b. h j a (omega arith))) refl

  scan_from :
      (fuel lo : ℕ) (o : Option ℕ) (r : Record)
      → cap ≤ lo + fuel
      → IsFirst (Bitmap.get_bit (bitmap_of f)) lo cap o
      → scan_page fuel f o r ≡ some (records_from f lo (cap - lo))
  unfolding scan_page
  scan_from fuel lo none r enough h = nothing_from fuel lo r h
  scan_from zero lo (some i) r enough h = absurd (omega arith)
  scan_from (suc fuel) lo (some i) r enough h =
      let r' : Record = record { slot_num = some i; bytes = slot_data f i } in
      let first = records_from-first lo (cap - lo) i h.0 (omega arith) h.2 h.3 in
      let rest =
        scan_from fuel (suc i) (init f (suc i)) r' (omega arith)
          (unfold init in next_setted_bit-IsFirst (bitmap_of f) (suc i)) in
      let e : lo + (cap - lo) - suc i ≡ cap - suc i = omega arith in
      rw (next-some i r h.1 h.2, scan_page) (rw (rest, first, e) refl)

  -- The scan of a page from slot `lo` on, with fuel for every slot, ends without an error and
  -- returns the records of exactly the taken slots from `lo` on, each once, in the order of the
  -- slots.
  pub scan_page-records :
      (fuel lo : ℕ) (r : Record)
      → cap ≤ lo + fuel
      → scan_page fuel f (init f lo) r ≡ some (records_from f lo (cap - lo))
  unfolding init
  scan_page-records fuel lo r enough =
      scan_from fuel lo (init f lo) r enough (next_setted_bit-IsFirst (bitmap_of f) lo)
