-- ===== src/Lsm/ByteKeys.antt =====
-- ObDefaultComparator (oblsm/util/ob_comparator.cpp): keys are byte strings, compared byte by byte,
-- a string behind its beginnings.
use Prim.Native.Nat.{compare, Ordering}
use miniob4cqu_db_exp.Common.{ℕ, ◌≡◌, refl, List, [], ◌∷◌, arith}
use miniob4cqu_db_exp.Lsm.Keys.{KeyOrder}

-- string_view::compare
unfoldable pub compare_bytes : List ℕ → List ℕ → Ordering
compare_bytes [] [] = Ordering.eq
compare_bytes [] (b ∷ ys) = Ordering.lt
compare_bytes (a ∷ xs) [] = Ordering.gt
compare_bytes (a ∷ xs) (b ∷ ys) = elim (compare a b) [
  | Ordering.lt ↦ Ordering.lt
  | Ordering.gt ↦ Ordering.gt
  | Ordering.eq ↦ compare_bytes xs ys
]

pub self : (a : List ℕ) → compare_bytes a a ≡ Ordering.eq
unfolding compare_bytes
self [] = refl
self (a ∷ xs) = ground (arith, self xs)

pub equal : (a b : List ℕ) → compare_bytes a b ≡ Ordering.eq → a ≡ b
unfolding compare_bytes
equal [] [] h = refl
equal [] (b ∷ ys) h = ground arith
equal (a ∷ xs) [] h = ground arith
equal (a ∷ xs) (b ∷ ys) h = ground (arith, equal xs ys)

pub flip_gt : (a b : List ℕ) → compare_bytes a b ≡ Ordering.gt → compare_bytes b a ≡ Ordering.lt
unfolding compare_bytes
flip_gt [] [] h = ground arith
flip_gt [] (b ∷ ys) h = ground arith
flip_gt (a ∷ xs) [] h = ground arith
flip_gt (a ∷ xs) (b ∷ ys) h = ground (arith, flip_gt xs ys)

pub flip_lt : (a b : List ℕ) → compare_bytes a b ≡ Ordering.lt → compare_bytes b a ≡ Ordering.gt
unfolding compare_bytes
flip_lt [] [] h = ground arith
flip_lt [] (b ∷ ys) h = ground arith
flip_lt (a ∷ xs) [] h = ground arith
flip_lt (a ∷ xs) (b ∷ ys) h = ground (arith, flip_lt xs ys)

pub chain :
    (a b c : List ℕ)
    → compare_bytes a b ≡ Ordering.lt
    → compare_bytes b c ≡ Ordering.lt
    → compare_bytes a c ≡ Ordering.lt
unfolding compare_bytes
chain [] b [] h k = absurd (no_less b k)
  where
    no_less : (b : List ℕ) → compare_bytes b [] ≡ Ordering.lt → ⊥
    no_less [] k = ground arith
    no_less (b ∷ ys) k = ground arith
chain [] b (c ∷ zs) h k = refl
chain (a ∷ xs) [] c h k = ground arith
chain (a ∷ xs) (b ∷ ys) [] h k = ground arith
chain (a ∷ xs) (b ∷ ys) (c ∷ zs) h k = ground (arith, chain xs ys zs)

abbrev pub byte_keys : KeyOrder
byte_keys = record {
  Key = List ℕ;
  compare_keys = compare_bytes;
  compare-self = self;
  compare-eq = equal;
  compare-gt = flip_gt;
  compare-lt = flip_lt;
  compare-trans = chain;
}
