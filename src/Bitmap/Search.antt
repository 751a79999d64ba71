-- ===== src/Bitmap/Search.antt =====
-- `next_unsetted_bit` and `next_setted_bit` find the first bit from `start` on, and miss only if
-- there is none.
use native.Mathlib.Decide.{dec_lt}
use miniob4cqu_db_exp.Common.{
  ℕ, zero, suc, ◌+◌, ◌-◌, ◌*◌, ◌/◌, ◌%◌, ◌<◌, ◌≤◌, ◌≡◌, refl, Bool, true, false, not, Option, none,
  some, List, get_or, arith, ltb, ◌==◌, table, holds_from, table_row, Bool-cases, inl, inr, ==_iff,
  ltb→lt, ◌∙◌,
}
use miniob4cqu_db_exp.Bitmap.{
  Bitmap, bool_eq, bit_of, get_bit, find_first, find_first_zero, find_first_setted, bytes_for, scan,
  within, next_unsetted_bit, next_setted_bit,
}

-- The answer `o` of a search from `lo` below `hi` for the first index at which `p` holds.
abbrev pub IsFirst : (ℕ → Bool) → ℕ → ℕ → Option ℕ → Type 0
IsFirst p lo hi none = (j : ℕ) → lo ≤ j → j < hi → p j ≡ false
IsFirst p lo hi (some i) =
    (lo ≤ i) × (i < hi) × (p i ≡ true) × ((j : ℕ) → lo ≤ j → j < i → p j ≡ false)

-- A search may start lower where nothing is found below its start.
IsFirst-lower :
    (p : ℕ → Bool) (lo mid hi : ℕ) (o : Option ℕ)
    → lo ≤ mid
    → ((j : ℕ) → lo ≤ j → j < mid → p j ≡ false)
    → IsFirst p mid hi o
    → IsFirst p lo hi o
IsFirst-lower p lo mid hi none le low h =
    λ j a b. elim (dec_lt j mid) [ yes below ↦ low j a below | no above ↦ h j (omega arith) b ]
IsFirst-lower p lo mid hi (some i) le low h = (
  omega arith,
  h.1,
  h.2,
  λ j a b. elim (dec_lt j mid) [ yes below ↦ low j a below | no above ↦ h.3 j (omega arith) b ],
)

IsFirst-suc :
    (p : ℕ → Bool) (lo hi : ℕ) (o : Option ℕ)
    → p lo ≡ false
    → IsFirst p (suc lo) hi o
    → IsFirst p lo hi o
IsFirst-suc p lo hi o miss h =
    IsFirst-lower p lo (suc lo) hi o (omega arith)
      (λ j a b. let e : j ≡ lo = omega arith in rw e miss) h

find_first-IsFirst :
    (want : Bool) (byte rounds i hi : ℕ)
    → hi ≡ i + rounds
    → IsFirst (λ j. bool_eq want (bit_of byte j)) i hi (find_first want byte rounds i)
unfolding find_first
find_first-IsFirst want byte zero i hi e = λ j h k. absurd (omega arith)
find_first-IsFirst want byte (suc rounds) i hi e =
    elim (Bool-cases (bool_eq want (bit_of byte i))) [
      | inl hit ↦ rw hit (omega arith, omega arith, hit, λ j a b. absurd (omega arith))
      | inr miss ↦ rw miss (
          IsFirst-suc (λ j. bool_eq want (bit_of byte j)) i hi (find_first want byte rounds (suc i))
            miss (find_first-IsFirst want byte rounds (suc i) hi (omega arith)))
    ]

-- The bits of a buffer, by their index, compared with `want`.
abbrev at_index : Bool → List ℕ → ℕ → Bool
at_index want bytes n = bool_eq want (bit_of (get_or bytes (n / 8) 0) (n % 8))

-- No bit of the byte `skip` is wanted.
abbrev Skips : Bool → ℕ → Type 0
Skips want skip = (j : ℕ) → j < 8 → bool_eq want (bit_of skip j) ≡ false

-- What a search in one byte, at `iter`, says of the indices of the buffer.
in_buffer :
    (want : Bool) (bytes : List ℕ) (iter j : ℕ)
    → j < 8
    → at_index want bytes (iter * 8 + j) ≡ bool_eq want (bit_of (get_or bytes iter 0) j)
in_buffer want bytes iter j h =
    let e : (iter * 8 + j) / 8 ≡ iter = omega arith in
    let f : (iter * 8 + j) % 8 ≡ j = omega arith in rw (e, f) refl

byte_misses :
    (want : Bool) (bytes : List ℕ) (iter s : ℕ)
    → ((j : ℕ) → s ≤ j → j < 8 → bool_eq want (bit_of (get_or bytes iter 0) j) ≡ false)
    → (n : ℕ) → iter * 8 + s ≤ n
    → n < suc iter * 8 + 0
    → at_index want bytes n ≡ false
byte_misses want bytes iter s miss n a b =
    let j = n - iter * 8 in
    let e : n ≡ iter * 8 + j = omega arith in
    rw e (in_buffer want bytes iter j (omega arith) ∙ miss j (omega arith) (omega arith))

module _ (want : Bool) (skip : ℕ) (find : ℕ → ℕ → Option ℕ) (bytes : List ℕ)
    (skips : Skips want skip)
    (finds : (byte s : ℕ)
      → s < 8
      → IsFirst (λ j. bool_eq want (bit_of byte j)) s 8 (find byte s)) where
  scan-IsFirst :
      (rounds iter s hi : ℕ)
      → s < 8
      → hi ≡ (iter + rounds) * 8
      → IsFirst (at_index want bytes) (iter * 8 + s) hi (scan skip find bytes rounds iter s)
  unfolding scan
  scan-IsFirst zero iter s hi h e = λ j a b. absurd (omega arith)
  scan-IsFirst (suc rounds) iter s hi h e =
      let rest = scan skip find bytes rounds (suc iter) 0 in
      let next =
        λ (miss : (j : ℕ) → s ≤ j → j < 8 → bool_eq want (bit_of (get_or bytes iter 0) j) ≡ false).
          IsFirst-lower (at_index want bytes) (iter * 8 + s) (suc iter * 8 + 0) hi rest
            (omega arith) (byte_misses want bytes iter s miss)
            (scan-IsFirst rounds (suc iter) 0 hi (omega arith) (omega arith)) in
      elim (Bool-cases (get_or bytes iter 0 == skip)) [
        | inl same ↦ rw same (next (λ j a b. rw ((==_iff _ _).0 same) (skips j b)))
        | inr other ↦
            rw other (step next (find (get_or bytes iter 0) s) (finds (get_or bytes iter 0) s h))
      ]
    where
      step :
          (((j : ℕ) → s ≤ j → j < 8 → bool_eq want (bit_of (get_or bytes iter 0) j) ≡ false)
            → IsFirst
                (at_index want bytes)
                (iter * 8 + s)
                hi
                (scan skip find bytes rounds (suc iter) 0))
          → (o : Option ℕ) → IsFirst (λ j. bool_eq want (bit_of (get_or bytes iter 0) j)) s 8 o
          → IsFirst (at_index want bytes) (iter * 8 + s) hi (elim o [
            | none ↦ scan skip find bytes rounds (suc iter) 0
            | some i ↦ some (iter * 8 + i)
          ])
      step next none f = next f
      step next (some i) f = (
        omega arith,
        omega arith,
        in_buffer want bytes iter i f.1 ∙ f.2,
        λ n a b.
            let j = n - iter * 8 in
            let e : n ≡ iter * 8 + j = omega arith in
            rw e (in_buffer want bytes iter j (omega arith) ∙ f.3 j (omega arith) (omega arith)),
      )

within-IsFirst :
    (p : ℕ → Bool) (lo size hi : ℕ) (o : Option ℕ)
    → (lo < size → size ≤ hi)
    → IsFirst p lo hi o
    → IsFirst p lo size (within size o)
unfolding within
within-IsFirst p lo size hi none le h = λ j a b. h j a (omega (arith, le (omega arith)))
within-IsFirst p lo size hi (some i) le h = elim (Bool-cases (ltb i size)) [
  | inl inside ↦ rw inside (h.0, ltb→lt _ _ inside, h.2, h.3)
  | inr outside ↦ rw outside (λ j a b. h.3 j a (ground arith))
]

start_parts : (start : ℕ) → start / 8 * 8 + start % 8 ≡ start
start_parts start = omega arith

no_skip_255 : Skips false 255
unfolding bit_of table holds_from
no_skip_255 j h = ground (arith, table_row 8 (λ j. bit_of 255 j) j refl h)

no_skip_0 : Skips true 0
unfolding bit_of table holds_from
no_skip_0 j h = ground (arith, table_row 8 (λ j. not (bit_of 0 j)) j refl h)

-- `next_unsetted_bit` returns the first clear bit at or after `start` and below the size, and
-- -1 only if every such bit is set.
pub next_unsetted_bit-IsFirst :
    (b : Bitmap) (start : ℕ)
    → IsFirst (λ j. not (get_bit b j)) start b.size (next_unsetted_bit b start)
unfolding next_unsetted_bit get_bit
next_unsetted_bit-IsFirst b start =
    within-IsFirst (at_index false b.bytes) start b.size ((start / 8 + rounds) * 8) _
      (λ h. ground arith)
      (rw (start_parts start) at (
        scan-IsFirst false 255 find_first_zero b.bytes no_skip_255
          (λ byte s h. find_first-IsFirst false byte (8 - s) s 8 (omega arith)) rounds (start / 8)
          (start % 8) _ (omega arith) refl))
  where
    rounds : ℕ
    rounds = bytes_for b.size - start / 8

-- `next_setted_bit` returns the first set bit at or after `start` and below the size, and -1
-- only if every such bit is clear.
pub next_setted_bit-IsFirst :
    (b : Bitmap) (start : ℕ) → IsFirst (get_bit b) start b.size (next_setted_bit b start)
unfolding next_setted_bit get_bit
next_setted_bit-IsFirst b start =
    within-IsFirst (at_index true b.bytes) start b.size ((start / 8 + rounds) * 8) _
      (λ h. ground arith)
      (rw (start_parts start) at (
        scan-IsFirst true 0 find_first_setted b.bytes no_skip_0
          (λ byte s h. find_first-IsFirst true byte (8 - s) s 8 (omega arith)) rounds (start / 8)
          (start % 8) _ (omega arith) refl))
  where
    rounds : ℕ
    rounds = bytes_for b.size - start / 8
