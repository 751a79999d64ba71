-- ===== src/Codec/Unsigned/Order.antt =====
-- The byte order of encoded unsigned integers is their order (codec.h).
use mathlib.Core.List.{append-nil}
use native.Mathlib.Decide.{dec_lt}
use miniob4cqu_db_exp.Common.{
  pow256, ℕ, zero, suc, ◌/◌, ◌%◌, ◌<◌, ◌≡◌, sym, ◌∙◌, inl, inr, [], ◌∷◌, arith, subst, All,
}
use miniob4cqu_db_exp.Codec.Bytes.{
  IsByte, decreasing, towards, Before-inverted, Before, Before-append, Before-longer,
}
use miniob4cqu_db_exp.Codec.Unsigned.{u64, append}
use miniob4cqu_db_exp.Codec.Unsigned.Width.{
  big_endian, fill-big_endian, big_endian-IsByte, length-big_endian, width_mono,
}

big_endian-Before : (k x y : ℕ) → x < y → y < pow256 k → Before (big_endian k x) (big_endian k y)
unfolding big_endian
big_endian-Before zero x y h bound = absurd (omega arith)
big_endian-Before (suc k) x y h bound = elim (dec_lt (x / 256) (y / 256)) [
  | yes lt ↦
      Before-longer (big_endian k (x / 256)) (big_endian k (y / 256)) _ _
        (big_endian-Before k (x / 256) (y / 256) lt (omega arith))
  | no ge ↦
      let e : x / 256 ≡ y / 256 = omega arith in
      rw e (
        Before-append (big_endian k (y / 256)) ((x % 256) ∷ []) ((y % 256) ∷ [])
          (inl (omega arith)))
]

append-IsByte : (x : ℕ) → x < u64 → All IsByte (append [] x)
unfolding append
append-IsByte x bound =
    let (k, le, v, e) = fill-big_endian 8 x [] (omega arith) in
    rw (e ∙ append-nil (big_endian k x), length-big_endian k x) (omega arith, big_endian-IsByte k x)

append-Before_increasing : (x y : ℕ) → x < y → y < u64 → Before (append [] x) (append [] y)
unfolding append
append-Before_increasing x y h bound =
    let (k, _, v, e) = fill-big_endian 8 x [] (omega arith) in
    let (l, _, w, f) = fill-big_endian 8 y [] bound in
    rw
      (
        e ∙ append-nil (big_endian k x),
        f ∙ append-nil (big_endian l y),
        length-big_endian k x,
        length-big_endian l y,
      )
      (elim (dec_lt k l) [
        | yes lt ↦ inl lt
        | no ge ↦
            let same : k ≡ l = omega (arith, width_mono k l x y v w (omega arith)) in
            inr (
              same,
              subst (λ (m : ℕ). Before (big_endian m x) (big_endian l y)) (sym same)
                  (big_endian-Before l x y h w.enough),
            )
      ])

-- Of two different numbers of 64 bits, the encodings differ, and where they first do, the smaller
-- number has the smaller byte in the increasing direction and the larger one in the decreasing one.
pub append-Before :
    (x y : ℕ)
    → x < y
    → y < u64
    → Before (append [] x) (append [] y)
      × Before (towards decreasing (append [] y)) (towards decreasing (append [] x))
append-Before x y h bound =
    let up = append-Before_increasing x y h bound in
    (
      up,
      Before-inverted (append [] x) (append [] y) (append-IsByte x (omega arith))
          (append-IsByte y bound) up,
    )
