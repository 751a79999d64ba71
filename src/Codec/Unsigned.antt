-- ===== src/Codec/Unsigned.antt =====
-- `append(bytes &, uint64_t)` and the `parse` that reads it back (codec.h).
pub mod Width
pub mod RoundTrip
pub mod Order
use mathlib.Core.List.{append_assoc}
use miniob4cqu_db_exp.Common.{
  ℕ, zero, suc, ◌+◌, ◌-◌, ◌*◌, ◌/◌, ◌%◌, ◌^◌, ◌≤◌, ◌<◌, ◌≡◌, refl, sym, ap, ◌∙◌, ◌⊎◌, inl, inr,
  Bool, true, false, ◌||◌, Option, none, some, List, [], ◌∷◌, ◌++◌, length, take, drop, bit_xor,
  arith, leb, ltb, ◌==◌, if◌then◌else◌, All, Bool-cases, ltb→lt,
}

abbrev pub u64 : ℕ
u64 = 2 ^ 64

-- The loop of `append`: the bytes of x from the last to the first, in front of those that stand.
unfoldable pub fill : ℕ → ℕ → List ℕ → List ℕ
fill zero x buf = buf
fill (suc rounds) x buf =
    let rest = fill rounds (x / 256) ((x % 256) ∷ buf) in if ltb 0 x then rest else buf

-- The buffer has nine bytes, so that the loop writes eight at most.
unfoldable pub append : List ℕ → ℕ → List ℕ
unfolding fill
append s x = let buf = fill 8 x [] in s ++ (length buf ∷ buf)

-- The loop of `parse`: `x << 8 | c`, on 64 bits; the low byte of `x << 8` is 0.
unfoldable pub gather : ℕ → ℕ → List ℕ → ℕ
gather dir x [] = x
gather dir x (c ∷ s) = gather dir (x * 256 % u64 + bit_xor c dir) s

-- `none` is RC::INVALID_ARGUMENT; else the value and the bytes behind it.
unfoldable pub parse : List ℕ → ℕ → Option (ℕ × List ℕ)
unfolding gather
parse [] dir = none
parse (b ∷ s) dir =
    let n = bit_xor b dir in
    if ltb 8 n || ltb (length s) n then none else some (gather dir 0 (take n s), drop n s)
