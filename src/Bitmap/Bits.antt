-- ===== src/Bitmap/Bits.antt =====
-- Reading a bit after it, or another one, was set or cleared.
use miniob4cqu_db_exp.Common.{
  ℕ, ◌*◌, ◌/◌, ◌%◌, ◌<◌, ◌≤◌, ◌≡◌, refl, Bool, true, false, ◌&&◌, ◌||◌, not, length, get_or, set,
  All, All-get_or, All-set, get_or-set_self, get_or-set_ne, length-set, arith, ltb, ◌==◌,
  if◌then◌else◌, table, holds_from, table_row, ltb→lt, replicate, get_or-replicate,
}
use miniob4cqu_db_exp.Bitmap.{
  Bitmap, bool_eq, bit_of, with_bit, without_bit, get_bit, set_bit, clear_bit,
}

abbrev pub IsByte : ℕ → Type 0
IsByte x = x < 256

-- A buffer of bytes, long enough for `size` bits.
pub record IsValid (b : Bitmap) : Type 0 where
  pub bytes : All IsByte b.bytes
  pub room : b.size ≤ 8 * length b.bytes

-- One row of the table: byte `x`, bit `k` written, bit `j` read.
row : ℕ → ℕ → ℕ → Bool
row x k j =
    bool_eq (bit_of (with_bit x k) j) (k == j || bit_of x j)
    && bool_eq (bit_of (without_bit x k) j) (not (k == j) && bit_of x j)
    && ltb (with_bit x k) 256
    && ltb (without_bit x k) 256

written_and_read : table 256 (λ x. table 8 (λ k. table 8 (row x k))) ≡ true
unfolding table holds_from row bit_of with_bit without_bit
written_and_read = refl

row_holds : (x k j : ℕ) → x < 256 → k < 8 → j < 8 → row x k j ≡ true
row_holds x k j hx hk hj =
    table_row 8 (row x k) j
      (table_row 8 (λ k. table 8 (row x k)) k (table_row 256 _ x written_and_read hx) hk) hj

bit_of-with_bit :
    (x k j : ℕ) → x < 256 → k < 8 → j < 8 → bit_of (with_bit x k) j ≡ (k == j || bit_of x j)
unfolding row
bit_of-with_bit x k j hx hk hj = ground (arith, row_holds x k j hx hk hj)

bit_of-without_bit :
    (x k j : ℕ)
    → x < 256
    → k < 8
    → j < 8
    → bit_of (without_bit x k) j ≡ (not (k == j) && bit_of x j)
unfolding row
bit_of-without_bit x k j hx hk hj = ground (arith, row_holds x k j hx hk hj)

with_bit-lt : (x k : ℕ) → x < 256 → k < 8 → with_bit x k < 256
unfolding row
with_bit-lt x k hx hk = ltb→lt _ _ (ground (arith, row_holds x k 0 hx hk (omega arith)))

without_bit-lt : (x k : ℕ) → x < 256 → k < 8 → without_bit x k < 256
unfolding row
without_bit-lt x k hx hk = ltb→lt _ _ (ground (arith, row_holds x k 0 hx hk (omega arith)))

-- A write of the byte of `i` is seen by the bits of that byte alone.
get_bit-write :
    (b : Bitmap) (i j w : ℕ)
    → i / 8 < length b.bytes
    → get_bit (record b { bytes = set b.bytes (i / 8) w }) j
      ≡ (if i / 8 == j / 8 then bit_of w (j % 8) else get_bit b j)
unfolding get_bit
get_bit-write b i j w h =
    ground (arith, get_or-set_self b.bytes (i / 8) w 0, get_or-set_ne b.bytes (i / 8) (j / 8) w 0)

module _ (b : Bitmap) (v : IsValid b) (i : ℕ) (fits : i < b.size) where
  byte_in_range : i / 8 < length b.bytes
  byte_in_range = omega (arith, v.room)

  byte-IsByte : (k : ℕ) → get_or b.bytes k 0 < 256
  byte-IsByte k = All-get_or IsByte b.bytes k 0 v.bytes (omega arith)

  -- `set_bit` sets its own bit and leaves every other one.
  pub get_bit-set_bit : (j : ℕ) → get_bit (set_bit b i) j ≡ (i == j || get_bit b j)
  unfolding get_bit set_bit
  get_bit-set_bit j =
      let byte = get_or b.bytes (i / 8) 0 in
      ground (
        arith,
        get_bit-write b i j (with_bit byte (i % 8)) byte_in_range,
        bit_of-with_bit byte (i % 8) (j % 8) (byte-IsByte (i / 8)),
      )

  -- `clear_bit` clears its own bit and leaves every other one.
  pub get_bit-clear_bit : (j : ℕ) → get_bit (clear_bit b i) j ≡ (not (i == j) && get_bit b j)
  unfolding get_bit clear_bit
  get_bit-clear_bit j =
      let byte = get_or b.bytes (i / 8) 0 in
      ground (
        arith,
        get_bit-write b i j (without_bit byte (i % 8)) byte_in_range,
        bit_of-without_bit byte (i % 8) (j % 8) (byte-IsByte (i / 8)),
      )

  pub set_bit-IsValid : IsValid (set_bit b i)
  unfolding set_bit
  set_bit-IsValid = record {
    bytes =
        All-set IsByte b.bytes (i / 8) _ v.bytes
          (with_bit-lt _ (i % 8) (byte-IsByte (i / 8)) (omega arith));
    room =
        omega
          (arith, v.room, length-set b.bytes (i / 8) (with_bit (get_or b.bytes (i / 8) 0) (i % 8)));
  }

  pub clear_bit-IsValid : IsValid (clear_bit b i)
  unfolding clear_bit
  clear_bit-IsValid = record {
    bytes =
        All-set IsByte b.bytes (i / 8) _ v.bytes
          (without_bit-lt _ (i % 8) (byte-IsByte (i / 8)) (omega arith));
    room = omega (
      arith,
      v.room,
      length-set b.bytes (i / 8) (without_bit (get_or b.bytes (i / 8) 0) (i % 8)),
    );
  }

zero_byte : (k : ℕ) → k < 8 → bit_of 0 k ≡ false
unfolding table holds_from bit_of
zero_byte k h = ground (arith, table_row 8 (λ j. not (bit_of 0 j)) k refl h)

-- A buffer of zeros has no bit set.
pub get_bit-zeros : (n cap j : ℕ) → get_bit (record { bytes = replicate n 0; size = cap }) j ≡ false
unfolding get_bit
get_bit-zeros n cap j = rw (get_or-replicate {A = ℕ} n (j / 8) 0) (zero_byte (j % 8) (omega arith))
