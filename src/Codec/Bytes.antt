-- ===== src/Codec/Bytes.antt =====
-- Bytes, the inversion for the decreasing direction, and the order of byte strings.
use miniob4cqu_db_exp.Common.{
  ℕ, ap, All, ◌-◌, ◌<◌, ◌≡◌, refl, sym, ◌⊎◌, inl, inr, true, ◌&&◌, List, [], ◌∷◌, ◌++◌, map,
  bit_xor, arith, table, holds_from, table_row, ◌==◌, ltb,
}

abbrev pub IsByte : ℕ → Type 0
IsByte x = x < 256

-- The two directions of `parse`.
abbrev pub increasing : ℕ
increasing = 0x00

abbrev pub decreasing : ℕ
decreasing = 0xff

-- `invert`
unfoldable pub invert : List ℕ → List ℕ
invert = map (λ c. bit_xor c 0xff)

xor_table :
    table 256 (λ x. bit_xor x 0 == x && bit_xor (bit_xor x 255) 255 == x && ltb (bit_xor x 255) 256)
    ≡ true
unfolding table holds_from
xor_table = refl

xor_row :
    (x : ℕ)
    → IsByte x
    → (bit_xor x 0 == x && bit_xor (bit_xor x 255) 255 == x && ltb (bit_xor x 255) 256) ≡ true
xor_row x h =
    table_row 256
      (λ x. bit_xor x 0 == x && bit_xor (bit_xor x 255) 255 == x && ltb (bit_xor x 255) 256) x
      xor_table h

pub xor-zero : (x : ℕ) → IsByte x → bit_xor x 0 ≡ x
xor-zero x h = ground (arith, xor_row x h)

pub xor-xor : (x : ℕ) → IsByte x → bit_xor (bit_xor x 255) 255 ≡ x
xor-xor x h = ground (arith, xor_row x h)

pub xor-IsByte : (x : ℕ) → IsByte x → IsByte (bit_xor x 255)
xor-IsByte x h = ground (arith, xor_row x h)

-- A direction of `parse`, and an encoding in that direction.
abbrev pub IsDirection : ℕ → Type 0
IsDirection dir = (dir ≡ increasing) ⊎ (dir ≡ decreasing)

abbrev pub towards : ℕ → List ℕ → List ℕ
towards dir = map (λ c. bit_xor c dir)

complement_table : table 256 (λ x. bit_xor x 255 == 255 - x) ≡ true
unfolding table holds_from
complement_table = refl

pub xor-complement : (x : ℕ) → IsByte x → bit_xor x 255 ≡ 255 - x
xor-complement x h =
    ground (arith, table_row 256 (λ x. bit_xor x 255 == 255 - x) x complement_table h)

-- Two byte strings differ, and where they first do, the first one has the smaller byte. So the one
-- comes before the other in the order of keys, and still does with anything behind them.
abbrev pub Before : List ℕ → List ℕ → Type 0
Before [] ys = ⊥
Before (x ∷ xs) [] = ⊥
Before (x ∷ xs) (y ∷ ys) = (x < y) ⊎ ((x ≡ y) × Before xs ys)

pub Before-append : (p xs ys : List ℕ) → Before xs ys → Before (p ++ xs) (p ++ ys)
Before-append [] xs ys h = h
Before-append (b ∷ p) xs ys h = inr (refl, Before-append p xs ys h)

pub Before-longer : (xs ys cs ds : List ℕ) → Before xs ys → Before (xs ++ cs) (ys ++ ds)
Before-longer [] ys cs ds h = elim h [ ]
Before-longer (x ∷ xs) [] cs ds h = elim h [ ]
Before-longer (x ∷ xs) (y ∷ ys) cs ds (inl lt) = inl lt
Before-longer (x ∷ xs) (y ∷ ys) cs ds (inr (same, h)) = inr (same, Before-longer xs ys cs ds h)

-- The bytes inverted, the order is turned round.
pub Before-inverted :
    (xs ys : List ℕ)
    → All IsByte xs
    → All IsByte ys
    → Before xs ys
    → Before (towards decreasing ys) (towards decreasing xs)
Before-inverted [] ys v w h = elim h [ ]
Before-inverted (x ∷ xs) [] v w h = elim h [ ]
Before-inverted (x ∷ xs) (y ∷ ys) v w (inl lt) =
    inl (rw (xor-complement x v.0, xor-complement y w.0) (omega (arith, v.0, w.0)))
Before-inverted (x ∷ xs) (y ∷ ys) v w (inr (same, h)) =
    inr (ap (λ (c : ℕ). bit_xor c 255) (sym same), Before-inverted xs ys v.1 w.1 h)

pub xor_twice : (dir x : ℕ) → IsDirection dir → IsByte x → bit_xor (bit_xor x dir) dir ≡ x
xor_twice dir x (inl up) h = rw (up, xor-zero x h) (xor-zero x h)
xor_twice dir x (inr down) h = rw down (xor-xor x h)
