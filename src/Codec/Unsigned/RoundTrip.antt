-- ===== src/Codec/Unsigned/RoundTrip.antt =====
-- `parse` reads back what `append` wrote, in both directions (codec.h, unsigned integers).
use mathlib.Core.List.{map-append, append-nil}
use miniob4cqu_db_exp.Common.{
  take-length-append, drop-length-append, pow256, ℕ, zero, suc, ◌+◌, ◌*◌, ◌/◌, ◌%◌, ◌<◌, ◌≡◌, refl,
  ◌∙◌, false, some, List, [], ◌∷◌, ◌++◌, length, length-append, length-map, bit_xor, arith, ltb,
}
use miniob4cqu_db_exp.Codec.Bytes.{IsDirection, towards, xor_twice}
use miniob4cqu_db_exp.Codec.Unsigned.{u64, fill, append, gather, parse}
use miniob4cqu_db_exp.Codec.Unsigned.Width.{big_endian, fill-big_endian, length-big_endian}

gather-append : (dir x : ℕ) (s t : List ℕ) → gather dir x (s ++ t) ≡ gather dir (gather dir x s) t
unfolding gather
gather-append dir x [] t = refl
gather-append dir x (c ∷ s) t = gather-append dir (x * 256 % u64 + bit_xor c dir) s t

gather-big_endian :
    (dir k x : ℕ)
    → IsDirection dir
    → x < pow256 k
    → x < u64
    → gather dir 0 (towards dir (big_endian k x)) ≡ x
unfolding gather big_endian
gather-big_endian dir zero x d h bound = omega arith
gather-big_endian dir (suc k) x d h bound =
    let q = x / 256 in
    let c = x % 256 in
    let ih : gather dir 0 (towards dir (big_endian k q)) ≡ q =
      gather-big_endian dir k q d (omega arith) (omega arith) in
    let twice : bit_xor (bit_xor c dir) dir ≡ c = xor_twice dir c d (omega arith) in
    rw (map-append, gather-append, ih, twice) (omega arith)

-- A number of 64 bits that is encoded, in either direction, and followed by any bytes is parsed to
-- the number and these bytes.
pub parse-append :
    (dir x : ℕ) (rest : List ℕ)
    → IsDirection dir
    → x < u64
    → parse (towards dir (append [] x) ++ rest) dir ≡ some (x, rest)
unfolding parse append
parse-append dir x rest d bound =
    let (k, le, w, e) = fill-big_endian 8 x [] bound in
    let digits = big_endian k x in
    let buf = towards dir digits in
    let same : fill 8 x [] ≡ digits = e ∙ append-nil digits in
    let long : length digits ≡ k = length-big_endian k x in
    let size : length buf ≡ k = length-map (λ (c : ℕ). bit_xor c dir) digits ∙ long in
    let n : bit_xor (bit_xor k dir) dir ≡ k = xor_twice dir k d (omega arith) in
    let short : ltb 8 k ≡ false = ground arith in
    let room : ltb (length (buf ++ rest)) k ≡ false = ground (arith, length-append buf rest) in
    rw
      (
        same,
        long,
        n,
        short,
        room,
        take-length-append buf rest k size,
        drop-length-append buf rest k size,
        gather-big_endian dir k x d w.enough bound,
      )
      refl
