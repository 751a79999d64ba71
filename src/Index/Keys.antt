-- ===== src/Index/Keys.antt =====
-- KeyComparator (bplus_tree.h) and RID::compare (record.h): an attribute, then the record's place.
use Prim.Native.Nat.{compare, Ordering}
use miniob4cqu_db_exp.Common.{◌≡◌, KeyOrder, arith}
use miniob4cqu_db_exp.Index.Page.{Rid}

-- The code subtracts page numbers and slot numbers, which are not negative.
unfoldable pub compare_rids : Rid → Rid → Ordering
compare_rids a b = elim (compare a.page_num b.page_num) [
  | Ordering.eq ↦ compare a.slot_num b.slot_num
  | Ordering.lt ↦ Ordering.lt
  | Ordering.gt ↦ Ordering.gt
]

module _ (A : KeyOrder) where
  open A use {compare_keys, compare-self, compare-eq, compare-gt, compare-lt, compare-trans}

  abbrev pub IndexKey : Type 0
  IndexKey = A.Key × Rid

  unfoldable pub compare_index_keys : IndexKey → IndexKey → Ordering
  unfolding compare_rids
  compare_index_keys (a, r) (b, q) = elim (compare_keys a b) [
    | Ordering.eq ↦ compare_rids r q
    | Ordering.lt ↦ Ordering.lt
    | Ordering.gt ↦ Ordering.gt
  ]

  pub index_self : (a : IndexKey) → compare_index_keys a a ≡ Ordering.eq
  unfolding compare_index_keys
  index_self (a, r) = ground (arith, compare-self a)

  pub index-eq : (a b : IndexKey) → compare_index_keys a b ≡ Ordering.eq → a ≡ b
  unfolding compare_index_keys
  index-eq (a, r) (b, q) h = ground (arith, h, compare-eq a b)

  pub index-gt :
      (a b : IndexKey) → compare_index_keys a b ≡ Ordering.gt → compare_index_keys b a ≡ Ordering.lt
  unfolding compare_index_keys
  index-gt (a, r) (b, q) h =
      ground (arith, h, compare-gt a b, compare-eq a b, compare-self a, compare-self b)

  pub index-lt :
      (a b : IndexKey) → compare_index_keys a b ≡ Ordering.lt → compare_index_keys b a ≡ Ordering.gt
  unfolding compare_index_keys
  index-lt (a, r) (b, q) h =
      ground (arith, h, compare-lt a b, compare-eq a b, compare-self a, compare-self b)

  pub index_trans :
      (a b c : IndexKey)
      → compare_index_keys a b ≡ Ordering.lt
      → compare_index_keys b c ≡ Ordering.lt
      → compare_index_keys a c ≡ Ordering.lt
  unfolding compare_index_keys
  index_trans (a, r) (b, q) (c, t) h k =
      ground (arith, h, k, compare-trans a b c, compare-eq a b, compare-eq b c, compare-self a)

  abbrev pub KeyComparator : KeyOrder
  KeyComparator = record {
    Key = IndexKey;
    compare_keys = compare_index_keys;
    compare-self = index_self;
    compare-eq = index-eq;
    compare-gt = index-gt;
    compare-lt = index-lt;
    compare-trans = index_trans;
  }
