-- ===== src/BufferPool/Redo.antt =====
-- The entry of one step, replayed on a header that agrees with the one before the step.
use miniob4cqu_db_exp.Common.{
  ℕ, ◌+◌, ◌-◌, ◌≤◌, ◌<◌, ◌≡◌, refl, sym, ap, ◌∙◌, Bool, true, false, Rc, List, [], ◌∷◌, ◌++◌, ltb,
  leb, if◌then◌else◌, arith,
}
use miniob4cqu_db_exp.Bitmap.{get_bit, set_bit, clear_bit}
use miniob4cqu_db_exp.BufferPool.{
  max_page_num, Header, Operation, with_page, without_page, redo_allocate_page,
  redo_deallocate_page, replay_entry, replay, is_success,
}

-- The two headers agree but for the log sequence number, which the first may not have reached.
pub record Agrees (h k : Header) : Type 0 where
  pub page_count : h.page_count ≡ k.page_count
  pub allocated_pages : h.allocated_pages ≡ k.allocated_pages
  pub bitmap : h.bitmap ≡ k.bitmap
  pub lsn : h.lsn ≤ k.lsn

abbrev pub replayed : Rc → Header → Rc × Header
replayed rc h = (rc, h)

pub replay-append :
    (log : List (ℕ × Operation)) (e : ℕ × Operation) (h k : Header)
    → replay log h ≡ (Rc.success, k)
    → replay (log ++ e ∷ []) h ≡ replay (e ∷ []) k
unfolding replay
replay-append [] e h k run = ap (λ (r : Rc × Header). replay (e ∷ []) r.1) run
replay-append (d ∷ log) e h k run =
    by_test (is_success (replay_entry d h).0) refl run (replay-append log e (replay_entry d h).1 k)
  where
    by_test :
        (b : Bool)
        → is_success (replay_entry d h).0 ≡ b
        → (if b
            then replay log (replay_entry d h).1
            else ((replay_entry d h).0, (replay_entry d h).1))
          ≡ replayed Rc.success k
        → (replay log (replay_entry d h).1 ≡ replayed Rc.success k
            → replay (log ++ e ∷ []) (replay_entry d h).1 ≡ replay (e ∷ []) k)
        → (if b
            then replay (log ++ e ∷ []) (replay_entry d h).1
            else ((replay_entry d h).0, (replay_entry d h).1))
          ≡ replay (e ∷ []) k
    by_test true ok run later = later run
    by_test false bad run later =
        absurd (cc (sym bad ∙ ap (λ (r : Rc × Header). is_success r.0) run))

-- The entry of a step, replayed on a header that agrees with the one before the step.
abbrev pub Reaches : Rc × Header → Header → Type 0
Reaches run k = (h : Header) × (run ≡ replayed Rc.success h) × Agrees h k

pub redo-reuse :
    (lsn p : ℕ) (h k : Header)
    → Agrees h k
    → k.lsn < lsn
    → p < k.page_count
    → get_bit k.bitmap p ≡ false
    → Reaches (redo_allocate_page lsn p h) (with_page p (record k { lsn = lsn }))
unfolding redo_allocate_page
redo-reuse lsn p h k a new below free = (
  with_page p h,
  rw (is_new) (rw is_below (rw is_free refl)),
  record {
    page_count = a.page_count;
    allocated_pages = ap (λ n. n + 1) a.allocated_pages;
    bitmap = ap (λ b. set_bit b p) a.bitmap;
    lsn = omega (arith, a.lsn);
  },
)
  where
    is_new : leb lsn h.lsn ≡ false
    is_new = ground (arith, a.lsn, new)

    is_below : ltb p h.page_count ≡ true
    is_below = ground (arith, a.page_count, below)

    is_free : get_bit h.bitmap p ≡ false
    is_free = ap (λ b. get_bit b p) a.bitmap ∙ free

pub redo-extend :
    (lsn : ℕ) (h k : Header)
    → Agrees h k
    → k.lsn < lsn
    → k.page_count < max_page_num
    → Reaches
        (redo_allocate_page lsn k.page_count h)
        (with_page k.page_count (record k { page_count = k.page_count + 1; lsn = lsn }))
unfolding redo_allocate_page
redo-extend lsn h k a new room = (
  with_page k.page_count (record h { page_count = h.page_count + 1; lsn = lsn }),
  rw is_new (rw not_below (rw not_above (rw has_room refl))),
  record {
    page_count = ap (λ n. n + 1) a.page_count;
    allocated_pages = ap (λ n. n + 1) a.allocated_pages;
    bitmap = ap (λ b. set_bit b k.page_count) a.bitmap;
    lsn = omega arith;
  },
)
  where
    is_new : leb lsn h.lsn ≡ false
    is_new = ground (arith, a.lsn, new)

    not_below : ltb k.page_count h.page_count ≡ false
    not_below = ground (arith, a.page_count)

    not_above : ltb h.page_count k.page_count ≡ false
    not_above = ground (arith, a.page_count)

    has_room : leb max_page_num h.page_count ≡ false
    has_room = ground (arith, a.page_count, room)

pub redo-release :
    (lsn p : ℕ) (h k : Header)
    → Agrees h k
    → k.lsn < lsn
    → p < k.page_count
    → get_bit k.bitmap p ≡ true
    → Reaches (redo_deallocate_page lsn p h) (without_page p (record k { lsn = lsn }))
unfolding redo_deallocate_page
redo-release lsn p h k a new below marked = (
  without_page p (record h { lsn = lsn }),
  rw is_new (rw is_below (rw is_marked refl)),
  record {
    page_count = a.page_count;
    allocated_pages = ap (λ n. n - 1) a.allocated_pages;
    bitmap = ap (λ b. clear_bit b p) a.bitmap;
    lsn = omega arith;
  },
)
  where
    is_new : leb lsn h.lsn ≡ false
    is_new = ground (arith, a.lsn, new)

    is_below : leb h.page_count p ≡ false
    is_below = ground (arith, a.page_count, below)

    is_marked : get_bit h.bitmap p ≡ true
    is_marked = ap (λ b. get_bit b p) a.bitmap ∙ marked
