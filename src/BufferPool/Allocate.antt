-- ===== src/BufferPool/Allocate.antt =====
-- A page that is allocated was free, and one that is disposed of becomes free.
use miniob4cqu_db_exp.Common.{
  ℕ, zero, suc, ◌+◌, ◌≤◌, ◌<◌, ◌≡◌, refl, sym, ap, ◌∙◌, Bool, true, false, ◌||◌, Rc, Option, none,
  some, ltb, leb, ◌==◌, ==_iff, if◌then◌else◌, arith, Bool-cases, inl, inr, ◌⊎◌, count_below_all,
  count_below-le, count_below-full,
}
use miniob4cqu_db_exp.Bitmap.{Bitmap, get_bit}
use miniob4cqu_db_exp.Bitmap.Bits.{get_bit-set_bit}
use miniob4cqu_db_exp.BufferPool.{
  max_page_num, allocate, Pool, append_log, with_page, first_free, extend, allocate_page,
  is_success,
}
use miniob4cqu_db_exp.BufferPool.Valid.{IsValid, with_page-IsValid, extended-IsValid}

pub first_free-lem :
    (rounds i : ℕ) (b : Bitmap) (p : ℕ)
    → first_free rounds i b ≡ some p
    → (p < i + rounds) × (get_bit b p ≡ false)
unfolding first_free
first_free-lem zero i b p h = absurd (ground (arith, h))
first_free-lem (suc rounds) i b p h = elim (Bool-cases (get_bit b i)) [
  | inl taken ↦ ground (arith, h, taken, first_free-lem rounds (i + 1) b p)
  | inr free ↦ ground (arith, h, free)
]

first_free-earlier :
    (rounds i : ℕ) (b : Bitmap) (p : ℕ)
    → first_free rounds i b ≡ some p
    → (j : ℕ) → i ≤ j
    → j < p
    → get_bit b j ≡ true
unfolding first_free
first_free-earlier zero i b p h j from to = absurd (ground (arith, h))
first_free-earlier (suc rounds) i b p h j from to = elim (Bool-cases (get_bit b i)) [
  | inl taken ↦ elim (Bool-cases (i == j)) [
    | inl here ↦ ap (get_bit b) (sym ((==_iff i j).0 here)) ∙ taken
    | inr there ↦
        first_free-earlier rounds (i + 1) b p (ground (arith, h, taken)) j (ground (arith, there))
          to
  ]
  | inr free ↦ let here : i ≡ p = ground (arith, h, free) in absurd (omega (arith, here))
]

first_free-none :
    (rounds i : ℕ) (b : Bitmap)
    → first_free rounds i b ≡ none
    → (j : ℕ) → i ≤ j
    → j < i + rounds
    → get_bit b j ≡ true
unfolding first_free
first_free-none zero i b h j from to = absurd (omega arith)
first_free-none (suc rounds) i b h j from to = elim (Bool-cases (get_bit b i)) [
  | inl taken ↦ elim (Bool-cases (i == j)) [
    | inl here ↦ ap (get_bit b) (sym ((==_iff i j).0 here)) ∙ taken
    | inr there ↦
        first_free-none rounds (i + 1) b (ground (arith, h, taken)) j (ground (arith, there))
          (omega arith)
  ]
  | inr free ↦ absurd (ground (arith, h, free))
]

-- What an allocation gives: the page was free and is the only one that changed.
pub record Allocated (s t : Pool) (p : ℕ) : Type 0 where
  pub was_free : get_bit s.header.bitmap p ≡ false
  pub bits : (q : ℕ) → get_bit t.header.bitmap q ≡ (p == q || get_bit s.header.bitmap q)
  pub counts : t.header.allocated_pages ≡ s.header.allocated_pages + 1
  pub within : p < t.header.page_count
  pub valid : IsValid t.header

pub reuse-Allocated :
    (s : Pool) (p : ℕ)
    → IsValid s.header
    → first_free s.header.page_count 0 s.header.bitmap ≡ some p
    → Allocated s (append_log (allocate p) (record s { header = with_page p s.header })) p
reuse-Allocated s p v found =
    let (below, free) = first_free-lem s.header.page_count 0 s.header.bitmap p found in
    let marked = with_page-IsValid s.header p v (omega arith) free in
    record {
      was_free = free;
      bits = get_bit-set_bit s.header.bitmap v.bits p (omega (arith, v.room, v.within));
      counts = refl;
      within = omega arith;
      valid = record {
        bits = marked.bits;
        room = marked.room;
        within = marked.within;
        counted = marked.counted;
        behind = marked.behind;
      };
    }

-- What an allocation comes to, where `get_this_page` loads pages: a page that was free below the page
-- count, a new page behind it, or no room.
abbrev pub Allocates : (ℕ → Rc) → Pool → Rc × Option ℕ × Pool → Type 0
Allocates get_this_page s result =
    ((p : ℕ) × (t : Pool) × (p < s.header.page_count)
      × ((q : ℕ) → q < p → get_bit s.header.bitmap q ≡ true)
      × (result ≡ (get_this_page p, if is_success (get_this_page p) then some p else none, t))
      × Allocated s t p
      × (t.header.page_count ≡ s.header.page_count))
    ⊎ ((t : Pool) × ((q : ℕ) → q < s.header.page_count → get_bit s.header.bitmap q ≡ true)
        × (result ≡ (Rc.success, some s.header.page_count, t))
        × Allocated s t s.header.page_count
        × (t.header.page_count ≡ s.header.page_count + 1))
    ⊎ ((s.header.allocated_pages ≡ max_page_num) × (result ≡ (Rc.bufferpool_nobuf, none, s)))

-- The bits below the page count are all set if they are as many as the pages.
all_taken :
    (s : Pool)
    → IsValid s.header
    → s.header.page_count ≤ s.header.allocated_pages
    → (q : ℕ) → q < s.header.page_count
    → get_bit s.header.bitmap q ≡ true
all_taken s v full q below =
    count_below-full (get_bit s.header.bitmap) s.header.page_count
      (omega (arith, v.counted, count_below-le (get_bit s.header.bitmap) s.header.page_count)) q
      below

extend-Allocates :
    (get_this_page : ℕ → Rc) (s : Pool)
    → IsValid s.header
    → s.header.page_count ≤ s.header.allocated_pages
    → Allocates get_this_page s (extend Rc.success s)
unfolding extend
extend-Allocates get_this_page s v full = by_room (leb max_page_num s.header.page_count) refl
  where
    grown : Pool
    grown = record (append_log (allocate s.header.page_count) s) {
      header =
          with_page s.header.page_count
            (record s.header { page_count = s.header.page_count + 1; lsn = s.next_lsn });
    }

    by_room :
        (b : Bool)
        → leb max_page_num s.header.page_count ≡ b
        → Allocates get_this_page s (
            if b
            then (Rc.bufferpool_nobuf, none, s)
            else (Rc.success, some s.header.page_count, grown))
    by_room true at_max = inr (
        inr (
          ground (
            arith,
            at_max,
            full,
            v.within,
            v.counted,
            count_below-le (get_bit s.header.bitmap) s.header.page_count,
          ),
          refl,
        ))
    by_room false room = inr (
        inl (
          grown,
          all_taken s v full,
          refl,
          record {
            was_free = v.behind s.header.page_count (omega arith);
            bits =
                get_bit-set_bit s.header.bitmap v.bits s.header.page_count
                  (ground (arith, room, v.room));
            counts = refl;
            within = omega arith;
            valid = extended-IsValid s.header s.next_lsn v (ground (arith, room));
          },
          refl,
        ))

abbrev pub reused : (ℕ → Rc) → Pool → Option ℕ → Rc × Option ℕ × Pool
reused get_this_page s none = extend Rc.success s
reused get_this_page s (some p) = (
  get_this_page p,
  if is_success (get_this_page p) then some p else none,
  append_log (allocate p) (record s { header = with_page p s.header }),
)

abbrev pub reuse_or_extend : (ℕ → Rc) → Pool → Rc × Option ℕ × Pool
reuse_or_extend get_this_page s =
    reused get_this_page s (first_free s.header.page_count 0 s.header.bitmap)

-- `allocate_page` on a valid header, where `allocate_frame` succeeds. If a page below the page count
-- is free, the first such page is marked; its frame is handed out if `get_this_page` loads it, and
-- else that call's code is returned. If none is free, the file grows by a page, whose frame is handed
-- out with SUCCESS; and at the greatest page count BUFFERPOOL_NOBUF is returned and nothing changes.
-- The page that is marked was free, no other bit changes, and the header is valid again.
pub allocate_page-Allocated :
    (get_this_page : ℕ → Rc) (s : Pool)
    → IsValid s.header
    → ((p : ℕ) × (t : Pool) × (p < s.header.page_count)
        × ((q : ℕ) → q < p → get_bit s.header.bitmap q ≡ true)
        × (allocate_page get_this_page Rc.success s
            ≡ (get_this_page p, if is_success (get_this_page p) then some p else none, t))
        × Allocated s t p
        × (t.header.page_count ≡ s.header.page_count))
      ⊎ ((t : Pool) × ((q : ℕ) → q < s.header.page_count → get_bit s.header.bitmap q ≡ true)
          × (allocate_page get_this_page Rc.success s ≡ (Rc.success, some s.header.page_count, t))
          × Allocated s t s.header.page_count
          × (t.header.page_count ≡ s.header.page_count + 1))
      ⊎ ((s.header.allocated_pages ≡ max_page_num)
          × (allocate_page get_this_page Rc.success s ≡ (Rc.bufferpool_nobuf, none, s)))
unfolding allocate_page
allocate_page-Allocated get_this_page s v =
    by_count (ltb s.header.allocated_pages s.header.page_count) refl
  where
    by_count :
        (b : Bool)
        → ltb s.header.allocated_pages s.header.page_count ≡ b
        → Allocates get_this_page s
            (if b then reuse_or_extend get_this_page s else extend Rc.success s)
    by_count true less = by_free (first_free s.header.page_count 0 s.header.bitmap) refl
      where
        by_free :
            (o : Option ℕ)
            → first_free s.header.page_count 0 s.header.bitmap ≡ o
            → Allocates get_this_page s (reused get_this_page s o)
        by_free none all = absurd (
            ground (
              arith,
              less,
              v.counted,
              count_below_all (get_bit s.header.bitmap) s.header.page_count (λ j below.
                  first_free-none s.header.page_count 0 s.header.bitmap all j (omega arith)
                    (omega arith)),
            ))
        by_free (some p) found = inl (
          p,
          append_log (allocate p) (record s { header = with_page p s.header }),
          omega (arith, (first_free-lem s.header.page_count 0 s.header.bitmap p found).0),
          λ q before.
              first_free-earlier s.header.page_count 0 s.header.bitmap p found q (omega arith)
                before,
          refl,
          reuse-Allocated s p v found,
          refl,
        )
    by_count false full = extend-Allocates get_this_page s v (ground (arith, full))
