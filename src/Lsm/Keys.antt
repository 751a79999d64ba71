-- ===== src/Lsm/Keys.antt =====
-- Entries and the order of their internal keys (oblsm/util/ob_comparator.cpp, ob_coding.h). A key
-- that is stored stands for its parts: the user's key and the sequence number behind it.
use Prim.Native.Nat.{compare, Ordering}
pub use miniob4cqu_db_exp.Common.{KeyOrder}
use miniob4cqu_db_exp.Common.{ℕ, ◌≡◌, List, [], ◌∷◌, All}

module _ (O : KeyOrder) where
  open O use {Key, compare_keys}

  -- An empty value marks a deletion.
  pub record Entry : Type 0 where
    pub user_key : Key
    pub sequence : ℕ
    pub value : List ℕ

  -- ObInternalKeyComparator: of one user key, the larger sequence number comes first.
  unfoldable pub compare_internal : Entry → Entry → Ordering
  compare_internal a b = elim (compare_keys a.user_key b.user_key) [
    | Ordering.eq ↦ elim (compare a.sequence b.sequence) [
      | Ordering.gt ↦ Ordering.lt
      | Ordering.lt ↦ Ordering.gt
      | Ordering.eq ↦ Ordering.eq
    ]
    | Ordering.lt ↦ Ordering.lt
    | Ordering.gt ↦ Ordering.gt
  ]

  abbrev pub Ahead : Entry → Entry → Type 0
  Ahead a b = compare_internal a b ≡ Ordering.lt

  -- Each entry is ahead of all behind it.
  abbrev pub IsSorted : List Entry → Type 0
  IsSorted [] = Unit
  IsSorted (e ∷ l) = All (Ahead e) l × IsSorted l
