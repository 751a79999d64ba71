-- ===== src/BufferPool/Steps.antt =====
-- The runs of a file, and what a step of one does to the log and to the header.
use miniob4cqu_db_exp.Common.{
  ℕ, ◌+◌, ◌<◌, ◌≡◌, refl, sym, ap, Bool, true, false, Rc, Option, none, some, ltb, leb, ◌==◌,
  if◌then◌else◌, arith, Bool-cases, inl, inr,
}
use miniob4cqu_db_exp.Bitmap.{get_bit}
use miniob4cqu_db_exp.BufferPool.{
  max_page_num, allocate, deallocate, Pool, append_log, with_page, without_page, first_free, extend,
  allocate_page, dispose_page,
}
use miniob4cqu_db_exp.BufferPool.Valid.{IsValid}
use miniob4cqu_db_exp.BufferPool.Allocate.{first_free-lem, reused, reuse_or_extend}

-- A step of a file: an allocation that does not lack a frame, or the disposal of a page that is
-- allocated.
pub data Steps (s t : Pool) : Type 0 where
  allocates :
      (get_this_page : ℕ → Rc) (rc : Rc) (page : Option ℕ)
      → allocate_page get_this_page Rc.success s ≡ (rc, page, t)
      → Steps s t
  disposes :
      (p : ℕ) (rc : Rc) → get_bit s.header.bitmap p ≡ true → dispose_page p s ≡ (rc, t) → Steps s t

pub data PoolRun : Pool → Pool → Type 0 where
  start : {s : Pool} → PoolRun s s
  then_steps : {s t u : Pool} → PoolRun s t → Steps t u → PoolRun s u

-- What a step does to the log and to the header.
pub data Effect (s t : Pool) : Type 0 where
  unchanged : t ≡ s → Effect s t
  reuses :
      (p : ℕ)
      → p < s.header.page_count
      → get_bit s.header.bitmap p ≡ false
      → t ≡ append_log (allocate p) (record s { header = with_page p s.header })
      → Effect s t
  extends :
      s.header.page_count < max_page_num
      → t ≡ record (append_log (allocate s.header.page_count) s) {
        header =
            with_page s.header.page_count
              (record s.header { page_count = s.header.page_count + 1; lsn = s.next_lsn });
      }
      → Effect s t
  releases :
      (p : ℕ)
      → p < s.header.page_count
      → get_bit s.header.bitmap p ≡ true
      → t ≡ record (append_log (deallocate p) s) {
        header = without_page p (record s.header { lsn = s.next_lsn });
      }
      → Effect s t

abbrev result : Rc → Option ℕ → Pool → Rc × Option ℕ × Pool
result rc page t = (rc, page, t)

abbrev ended : Rc → Pool → Rc × Pool
ended rc t = (rc, t)

extend-Effect :
    (s t : Pool) (rc : Rc) (page : Option ℕ) → extend Rc.success s ≡ (rc, page, t) → Effect s t
unfolding extend
extend-Effect s t rc page run = by_room (leb max_page_num s.header.page_count) refl run
  where
    grown : Pool
    grown = record (append_log (allocate s.header.page_count) s) {
      header =
          with_page s.header.page_count
            (record s.header { page_count = s.header.page_count + 1; lsn = s.next_lsn });
    }

    by_room :
        (b : Bool)
        → leb max_page_num s.header.page_count ≡ b
        → (if b
            then (Rc.bufferpool_nobuf, none, s)
            else (Rc.success, some s.header.page_count, grown))
          ≡ result rc page t
        → Effect s t
    by_room true full run = unchanged (sym (ap (λ (r : Rc × Option ℕ × Pool). r.2) run))
    by_room false room run =
        extends (ground (arith, room)) (sym (ap (λ (r : Rc × Option ℕ × Pool). r.2) run))

reuse_or_extend-Effect :
    (get_this_page : ℕ → Rc) (s t : Pool) (rc : Rc) (page o : Option ℕ)
    → IsValid s.header
    → first_free s.header.page_count 0 s.header.bitmap ≡ o
    → reused get_this_page s o ≡ result rc page t
    → Effect s t
reuse_or_extend-Effect get_this_page s t rc page none v found run = extend-Effect s t rc page run
reuse_or_extend-Effect get_this_page s t rc page (some p) v found run =
    let (below, free) = first_free-lem s.header.page_count 0 s.header.bitmap p found in
    reuses p (omega arith) free (sym (ap (λ (r : Rc × Option ℕ × Pool). r.2) run))

pub Steps-Effect : (s t : Pool) → IsValid s.header → Steps s t → Effect s t
unfolding allocate_page dispose_page
Steps-Effect s t v (allocates get_this_page rc page run) =
    by_count (ltb s.header.allocated_pages s.header.page_count) run
  where
    by_count :
        (b : Bool)
        → (if b then reuse_or_extend get_this_page s else extend Rc.success s) ≡ result rc page t
        → Effect s t
    by_count true run =
        reuse_or_extend-Effect get_this_page s t rc page
          (first_free s.header.page_count 0 s.header.bitmap) v refl run
    by_count false run = extend-Effect s t rc page run
Steps-Effect s t v (disposes p rc marked run) = by_page (p == 0) run
  where
    released : Pool
    released = record (append_log (deallocate p) s) {
      header = without_page p (record s.header { lsn = s.next_lsn });
    }

    below : p < s.header.page_count
    below = elim (Bool-cases (ltb p s.header.page_count)) [
      | inl less ↦ ground (arith, less)
      | inr more ↦ absurd (ground (arith, marked, v.behind p (ground (arith, more))))
    ]

    by_page :
        (b : Bool)
        → (if b then ended Rc.internal s else ended Rc.success released) ≡ ended rc t
        → Effect s t
    by_page true run = unchanged (sym (ap (λ (r : Rc × Pool). r.1) run))
    by_page false run = releases p below marked (sym (ap (λ (r : Rc × Pool). r.1) run))
