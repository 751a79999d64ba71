-- ===== src/Codec/Text/Order.antt =====
-- The byte order of encoded texts is the order of the texts.
use miniob4cqu_db_exp.Common.{ℕ, ◌<◌, ◌≡◌, ◌⊎◌, inl, inr, List, [], ◌∷◌, ◌++◌, arith, All}
use mathlib.Core.List.{append_assoc}
use miniob4cqu_db_exp.Codec.Bytes.{
  IsByte, decreasing, towards, Before, Before-append, Before-inverted,
}
use miniob4cqu_db_exp.Codec.Text.{term, append}
use miniob4cqu_db_exp.Codec.Text.RoundTrip.{escaped, escape, append-escape}

-- The order of texts: byte by byte, a text behind its beginnings.
abbrev pub Below : List ℕ → List ℕ → Type 0
Below [] [] = ⊥
Below [] (y ∷ ys) = Unit
Below (x ∷ xs) [] = ⊥
Below (x ∷ xs) (y ∷ ys) = (x < y) ⊎ ((x ≡ y) × Below xs ys)

escape-Before : (x y : List ℕ) → Below x y → Before (escape x ++ term) (escape y ++ term)
escape-Before [] [] h = elim h [ ]
escape-Before [] (y ∷ ys) h = ground arith
escape-Before (x ∷ xs) [] h = elim h [ ]
escape-Before (x ∷ xs) (y ∷ ys) (inl lt) = ground arith
escape-Before (x ∷ xs) (y ∷ ys) (inr (same, h)) =
    rw (same, append_assoc (escaped y), append_assoc (escaped y))
      (Before-append (escaped y) (escape xs ++ term) (escape ys ++ term) (escape-Before xs ys h))

escape-IsByte : (x : List ℕ) → All IsByte x → All IsByte (escape x ++ term)
escape-IsByte [] v = omega arith
escape-IsByte (c ∷ x) v = let ih = escape-IsByte x v.1 in ground arith

-- Of two texts in their order, the encodings differ, and where they first do, the smaller text has
-- the smaller byte in the increasing direction and the larger one in the decreasing direction.
pub append-Before_text :
    (x y : List ℕ)
    → All IsByte x
    → All IsByte y
    → Below x y
    → Before (append [] x) (append [] y)
      × Before (towards decreasing (append [] y)) (towards decreasing (append [] x))
append-Before_text x y v w h =
    let up = escape-Before x y h in
    rw (append-escape [] x, append-escape [] y)
      (
        up,
        Before-inverted (escape x ++ term) (escape y ++ term) (escape-IsByte x v)
            (escape-IsByte y w) up,
      )
