-- ===== src/BufferPool/Valid.antt =====
-- A valid header of a file: marking a page, adding one and releasing one keep it valid.
use miniob4cqu_db_exp.Common.{
  replicate, All-replicate, length-replicate, ℕ, suc, ◌+◌, ◌≤◌, ◌<◌, ◌≡◌, refl, sym, ap, ◌∙◌, Bool,
  true, false, not, ◌||◌, ◌&&◌, ltb, ◌==◌, ==_iff, if◌then◌else◌, arith, Bool-cases, inl, inr,
  count_below, count_below_cong, count_below_insert,
}
use miniob4cqu_db_exp.Bitmap.{Bitmap, get_bit, set_bit, clear_bit}
use miniob4cqu_db_exp.Bitmap.Bits.{
  get_bit-set_bit, get_bit-clear_bit, set_bit-IsValid, clear_bit-IsValid,
}
use miniob4cqu_db_exp.Bitmap.Bits
use miniob4cqu_db_exp.BufferPool.{max_page_num, Header, with_page, without_page}

-- The header of a file: the bits count the pages that are allocated, and no page behind the last
-- one is.
pub record IsValid (h : Header) : Type 0 where
  pub bits : Bits.IsValid h.bitmap
  pub room : h.bitmap.size ≡ max_page_num
  pub within : h.page_count ≤ max_page_num
  pub counted : count_below (get_bit h.bitmap) h.page_count ≡ h.allocated_pages
  pub behind : (p : ℕ) → h.page_count ≤ p → get_bit h.bitmap p ≡ false

pub set_bit-size : (b : Bitmap) (p : ℕ) → (set_bit b p).size ≡ b.size
unfolding set_bit
set_bit-size b p = refl

clear_bit-size : (b : Bitmap) (p : ℕ) → (clear_bit b p).size ≡ b.size
unfolding clear_bit
clear_bit-size b p = refl

-- A free page below the last one is marked.
pub with_page-IsValid :
    (h : Header) (p : ℕ)
    → IsValid h
    → p < h.page_count
    → get_bit h.bitmap p ≡ false
    → IsValid (with_page p h)
with_page-IsValid h p v below free = record {
  bits = set_bit-IsValid h.bitmap v.bits p (omega (arith, v.room, v.within));
  room = set_bit-size h.bitmap p ∙ v.room;
  within = v.within;
  counted =
      count_below_insert (get_bit h.bitmap) (get_bit (set_bit h.bitmap p)) p h.page_count below free
        (get_bit-set_bit h.bitmap v.bits p (omega (arith, v.room, v.within)))
      ∙ ap (λ n. n + 1) v.counted;
  behind = λ q le.
      ground (
        arith,
        get_bit-set_bit h.bitmap v.bits p (omega (arith, v.room, v.within)) q,
        v.behind q le,
      );
}

count_below_suc :
    (p : ℕ → Bool) (n : ℕ) → count_below p (n + 1) ≡ (if p n then 1 else 0) + count_below p n
unfolding count_below
count_below_suc p n = ap (count_below p) {x = n + 1} {y = suc n} (omega arith)

-- The file has a page more, which is marked.
pub extended-IsValid :
    (h : Header) (lsn : ℕ)
    → IsValid h
    → h.page_count < max_page_num
    → IsValid (with_page h.page_count (record h { page_count = h.page_count + 1; lsn = lsn }))
extended-IsValid h lsn v room = record {
  bits = set_bit-IsValid h.bitmap v.bits h.page_count fits;
  room = set_bit-size h.bitmap h.page_count ∙ v.room;
  within = omega arith;
  counted =
      count_below_suc (get_bit (set_bit h.bitmap h.page_count)) h.page_count
      ∙ ground (
        arith,
        v.counted,
        bits h.page_count,
        count_below_cong (get_bit (set_bit h.bitmap h.page_count)) (get_bit h.bitmap) h.page_count
            (λ j less. ground (arith, bits j, less)),
      );
  behind = λ q le. ground (arith, bits q, v.behind q (omega arith), le);
}
  where
    fits : h.page_count < h.bitmap.size
    fits = omega (arith, v.room)

    bits :
        (j : ℕ)
        → get_bit (set_bit h.bitmap h.page_count) j ≡ (h.page_count == j || get_bit h.bitmap j)
    bits = get_bit-set_bit h.bitmap v.bits h.page_count fits

pub without_page-IsValid :
    (h : Header) (p : ℕ) → IsValid h → get_bit h.bitmap p ≡ true → IsValid (without_page p h)
without_page-IsValid h p v marked = record {
  bits = clear_bit-IsValid h.bitmap v.bits p fits;
  room = clear_bit-size h.bitmap p ∙ v.room;
  within = v.within;
  counted = ground (
    arith,
    v.counted,
    count_below_insert (get_bit (clear_bit h.bitmap p)) (get_bit h.bitmap) p h.page_count below
        (ground (arith, bits p)) (λ j. restored j (p == j) refl),
  );
  behind = λ q le. ground (arith, bits q, v.behind q le);
}
  where
    below : p < h.page_count
    below = elim (Bool-cases (ltb p h.page_count)) [
      | inl less ↦ ground (arith, less)
      | inr more ↦ absurd (ground (arith, marked, v.behind p (ground (arith, more))))
    ]

    fits : p < h.bitmap.size
    fits = omega (arith, below, v.room, v.within)

    bits : (j : ℕ) → get_bit (clear_bit h.bitmap p) j ≡ (not (p == j) && get_bit h.bitmap j)
    bits = get_bit-clear_bit h.bitmap v.bits p fits

    restored :
        (j : ℕ) (b : Bool)
        → (p == j) ≡ b
        → get_bit h.bitmap j ≡ (p == j || get_bit (clear_bit h.bitmap p) j)
    restored j true here = rw here (ap (get_bit h.bitmap) (sym ((==_iff p j).0 here)) ∙ marked)
    restored j false there = ground (arith, there, bits j)

abbrev zeros : Bitmap
zeros = record { bytes = replicate 8168 0; size = max_page_num }

-- The header of a file without any page.
abbrev pub no_pages : Header
no_pages = record { page_count = 0; allocated_pages = 0; bitmap = zeros; lsn = 0 }

pub no_pages-IsValid : IsValid no_pages
unfolding count_below
no_pages-IsValid = record {
  bits = record {
    bytes = All-replicate Bits.IsByte 8168 0 (omega arith);
    room = omega (arith, length-replicate {A = ℕ} 8168 0);
  };
  room = refl;
  within = omega arith;
  counted = refl;
  behind = λ p le. Bits.get_bit-zeros 8168 max_page_num p;
}
