-- ===== src/Bitmap.antt =====
-- Bitmap of src/common/lang/bitmap.cpp: `size` bits over a buffer of bytes. A byte is a number
-- below 256; the code's signed `char` -1 is 255. A result -1 of the code is `none`.
pub mod Bits
pub mod Search
mod Tests
use miniob4cqu_db_exp.Common.{
  ℕ, zero, suc, ◌+◌, ◌-◌, ◌*◌, ◌/◌, ◌%◌, ◌^◌, bit_and, bit_or, Bool, true, false, not, Option, none,
  some, List, get_or, set, ltb, ◌==◌, if◌then◌else◌,
}

pub record Bitmap : Type 0 where
  pub bytes : List ℕ
  pub size : ℕ

-- `(byte & (1 << i)) != 0`
unfoldable pub bit_of : ℕ → ℕ → Bool
bit_of byte i = not (bit_and byte (2 ^ i) == 0)

-- `bits |= (1 << k)`
unfoldable pub with_bit : ℕ → ℕ → ℕ
with_bit byte k = bit_or byte (2 ^ k)

-- `bits &= ~(1 << k)`, on a byte
pub without_bit : ℕ → ℕ → ℕ
without_bit byte k = bit_and byte (255 - 2 ^ k)

abbrev pub bool_eq : Bool → Bool → Bool
bool_eq true b = b
bool_eq false b = not b

-- The loop that `find_first_zero` and `find_first_setted` share, over the rounds that are left: the
-- first bit from `i` on that is `want`.
unfoldable pub find_first : Bool → ℕ → ℕ → ℕ → Option ℕ
find_first want byte zero i = none
find_first want byte (suc rounds) i =
    let rest = find_first want byte rounds (suc i) in
    if bool_eq want (bit_of byte i) then some i else rest

unfoldable pub find_first_zero : ℕ → ℕ → Option ℕ
find_first_zero byte start = find_first false byte (8 - start) start

pub find_first_setted : ℕ → ℕ → Option ℕ
find_first_setted byte start = find_first true byte (8 - start) start

unfoldable pub bytes_for : ℕ → ℕ
bytes_for size = if size % 8 == 0 then size / 8 else size / 8 + 1

unfoldable pub get_bit : Bitmap → ℕ → Bool
unfolding bit_of
get_bit b index = bit_of (get_or b.bytes (index / 8) 0) (index % 8)

unfoldable pub set_bit : Bitmap → ℕ → Bitmap
unfolding with_bit
set_bit b index =
    let at = index / 8 in
    record b { bytes = set b.bytes at (with_bit (get_or b.bytes at 0) (index % 8)) }

unfoldable pub clear_bit : Bitmap → ℕ → Bitmap
unfolding without_bit
clear_bit b index =
    let at = index / 8 in
    record b { bytes = set b.bytes at (without_bit (get_or b.bytes at 0) (index % 8)) }

-- The loop over the bytes of `next_unsetted_bit` and `next_setted_bit`: a byte `skip` has no bit
-- that is sought, `find` is the search in one byte, and only the first byte is entered at
-- `start_in_byte`.
unfoldable pub scan : ℕ → (ℕ → ℕ → Option ℕ) → List ℕ → ℕ → ℕ → ℕ → Option ℕ
scan skip find bytes zero iter start_in_byte = none
scan skip find bytes (suc rounds) iter start_in_byte =
    let byte = get_or bytes iter 0 in
    let rest = scan skip find bytes rounds (suc iter) 0 in
    if byte == skip
    then rest
    else elim (find byte start_in_byte) [ none ↦ rest | some i ↦ some (iter * 8 + i) ]

-- `if (ret >= size_) ret = -1`
unfoldable pub within : ℕ → Option ℕ → Option ℕ
within size none = none
within size (some i) = if ltb i size then some i else none

unfoldable pub next_unsetted_bit : Bitmap → ℕ → Option ℕ
unfolding find_first_zero find_first scan within bytes_for
next_unsetted_bit b start =
    within b.size
      (scan 255 find_first_zero b.bytes (bytes_for b.size - start / 8) (start / 8) (start % 8))

unfoldable pub next_setted_bit : Bitmap → ℕ → Option ℕ
unfolding find_first_setted find_first scan within bytes_for
next_setted_bit b start =
    within b.size
      (scan 0 find_first_setted b.bytes (bytes_for b.size - start / 8) (start / 8) (start % 8))
