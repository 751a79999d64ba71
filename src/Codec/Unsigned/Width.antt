-- ===== src/Codec/Unsigned/Width.antt =====
-- The bytes that `append` writes for a number (codec.h).
use native.Mathlib.Decide.{dec_lt}
use mathlib.Core.List.{append_assoc}
use miniob4cqu_db_exp.Common.{
  pow256, ℕ, zero, suc, ◌/◌, ◌%◌, ◌≤◌, ◌<◌, ◌≡◌, refl, sym, inl, inr, List, [], ◌∷◌, ◌++◌, length,
  length-append, arith, ltb, Bool-cases, ltb→lt, All, All-append,
}
use miniob4cqu_db_exp.Codec.Bytes.{IsByte}
use miniob4cqu_db_exp.Codec.Unsigned.{fill}

-- The last k bytes of x, the first of them first.
unfoldable pub big_endian : ℕ → ℕ → List ℕ
big_endian zero x = []
big_endian (suc k) x = big_endian k (x / 256) ++ (x % 256) ∷ []

-- k is the number of bytes that x takes, with no zero in front.
pub record IsWidth (k x : ℕ) : Type 0 where
  pub enough : x < pow256 k
  pub needed : (j : ℕ) → j < k → pow256 j ≤ x

pub fill-big_endian :
    (rounds x : ℕ) (buf : List ℕ)
    → x < pow256 rounds
    → (k : ℕ) × (k ≤ rounds) × IsWidth k x × (fill rounds x buf ≡ big_endian k x ++ buf)
unfolding fill big_endian
fill-big_endian zero x buf h =
    (0, omega arith, record { enough = h; needed = λ j k. absurd (omega arith) }, refl)
fill-big_endian (suc rounds) x buf h = elim (Bool-cases (ltb 0 x)) [
  | inl more ↦
      let (k, le, w, e) = fill-big_endian rounds (x / 256) ((x % 256) ∷ buf) (omega arith) in
      (
        suc k,
        omega arith,
        wider k x (ltb→lt 0 x more) w,
        rw (more, e) (sym (append_assoc (big_endian k (x / 256)) ((x % 256) ∷ []) buf)),
      )
  | inr done ↦ (
    0,
    omega arith,
    record { enough = ground arith; needed = λ j k. absurd (omega arith) },
    rw done refl,
  )
]
  where
    wider : (k x : ℕ) → 0 < x → IsWidth k (x / 256) → IsWidth (suc k) x
    wider k x pos w = record { enough = omega (arith, w.enough); needed = needs }
      where
        needs : (j : ℕ) → j < suc k → pow256 j ≤ x
        needs zero h = pos
        needs (suc j) h = omega (arith, w.needed j (omega arith))

pub length-big_endian : (k x : ℕ) → length (big_endian k x) ≡ k
unfolding big_endian
length-big_endian zero x = refl
length-big_endian (suc k) x =
    omega (
      arith,
      length-append (big_endian k (x / 256)) ((x % 256) ∷ []),
      length-big_endian k (x / 256),
    )

pub big_endian-IsByte : (k x : ℕ) → All IsByte (big_endian k x)
unfolding big_endian
big_endian-IsByte zero x = tt
big_endian-IsByte (suc k) x =
    All-append IsByte (big_endian k (x / 256)) ((x % 256) ∷ []) (big_endian-IsByte k (x / 256))
      (omega arith, tt)

pow256_mono : (i j : ℕ) → i ≤ j → pow256 i ≤ pow256 j
pow256_mono zero zero h = omega arith
pow256_mono zero (suc j) h = omega (arith, pow256_mono zero j (omega arith))
pow256_mono (suc i) zero h = absurd (omega arith)
pow256_mono (suc i) (suc j) h = omega (arith, pow256_mono i j (omega arith))

-- A smaller number takes no more bytes.
pub width_mono : (k l x y : ℕ) → IsWidth k x → IsWidth l y → x ≤ y → k ≤ l
width_mono zero l x y v w h = omega arith
width_mono (suc k) l x y v w h = elim (dec_lt k l) [
  | yes le ↦ le
  | no gt ↦
      absurd (omega (arith, w.enough, v.needed k (omega arith), pow256_mono l k (omega arith)))
]
