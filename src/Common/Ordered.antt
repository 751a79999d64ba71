-- ===== src/Common/Ordered.antt =====
-- A three-way comparison of keys.
use Prim.Native.Nat.{Ordering}
use mathlib.Core.Path.{◌≡◌}

-- ObComparator on the user's keys, KeyComparator on those of an index: a three-way comparison that is a linear order.
pub record KeyOrder : Type 1 where
  pub Key : Type 0
  pub compare_keys : Key → Key → Ordering
  pub compare-self : (a : Key) → compare_keys a a ≡ Ordering.eq
  pub compare-eq : (a b : Key) → compare_keys a b ≡ Ordering.eq → a ≡ b
  pub compare-gt : (a b : Key) → compare_keys a b ≡ Ordering.gt → compare_keys b a ≡ Ordering.lt
  pub compare-lt : (a b : Key) → compare_keys a b ≡ Ordering.lt → compare_keys b a ≡ Ordering.gt
  pub compare-trans :
      (a b c : Key)
      → compare_keys a b ≡ Ordering.lt
      → compare_keys b c ≡ Ordering.lt
      → compare_keys a c ≡ Ordering.lt
