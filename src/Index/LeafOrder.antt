-- ===== src/Index/LeafOrder.antt =====
-- The items of a node in the order of their keys: what `lookup`, `insert` and `remove` do to a leaf
-- as a map from keys to records.
use Prim.Native.Nat.{Ordering}
use miniob4cqu_db_exp.Common.{
  ℕ, zero, suc, ◌≡◌, refl, ap, ◌∙◌, subst, Bool, true, false, Option, none, some, List, [], ◌∷◌,
  ◌++◌, ◌⊎◌, inl, inr, get_elem?, take, drop, All, arith,
}
use miniob4cqu_db_exp.Index.Page.{IndexKeys, Key, Item, Node, Slot}
use miniob4cqu_db_exp.Index.SearchBounds.{
  IsAscending, first_not_below, found_at, lower_bound-first_not_below,
}
use miniob4cqu_db_exp.Index.Leaf

module _ (K : IndexKeys) where
  open K.order use {compare_keys, compare-self, compare-eq, compare-gt, compare-lt, compare-trans}

  abbrev pub Before : Item K → Item K → Type 0
  Before x y = compare_keys x.0 y.0 ≡ Ordering.lt

  abbrev pub IsSorted : List (Item K) → Type 0
  IsSorted [] = Unit
  IsSorted (x ∷ items) = All (Before x) items × IsSorted items

  -- The slot of a key.
  abbrev pub slot_of : Key K → List (Item K) → Option Slot
  slot_of key [] = none
  slot_of key (x ∷ items) = elim (compare_keys x.0 key) [
    | Ordering.eq ↦ some x.1
    | _ ↦ slot_of key items
  ]

  abbrev pub comparing : Key K → Item K → Ordering
  comparing key x = compare_keys x.0 key

  pub All-at :
      (P : Item K → Type 0) (items : List (Item K)) (j : ℕ) (y : Item K)
      → All P items
      → get_elem? items j ≡ some y
      → P y
  All-at P [] j y h at = absurd (ground (arith, at))
  All-at P (x ∷ items) zero y h at = subst P (cc) h.0
  All-at P (x ∷ items) (suc j) y h at = All-at P items j y h.1 at

  pub at_below :
      (key : Key K) (x y : Item K)
      → comparing key x ≡ Ordering.eq
      → Before x y
      → comparing key y ≡ Ordering.gt
  at_below key x y k h = ground (arith, k, h, compare-eq x.0 key, compare-lt key y.0)

  pub gt_below :
      (key : Key K) (x y : Item K)
      → comparing key x ≡ Ordering.gt
      → Before x y
      → comparing key y ≡ Ordering.gt
  gt_below key x y k h = compare-lt key y.0 (compare-trans key x.0 y.0 (compare-gt x.0 key k) h)

  ordered :
      (key : Key K) (x y : Item K)
      → Before x y
      → (comparing key x ≡ Ordering.lt) ⊎ (comparing key y ≡ Ordering.gt)
  ordered key x y h = by_order (comparing key x) refl
    where
      by_order :
          (o : Ordering)
          → comparing key x ≡ o
          → (comparing key x ≡ Ordering.lt) ⊎ (comparing key y ≡ Ordering.gt)
      by_order Ordering.lt k = inl k
      by_order Ordering.eq k = inr (at_below key x y k h)
      by_order Ordering.gt k = inr (gt_below key x y k h)

  pub IsSorted-IsAscending :
      (key : Key K) (items : List (Item K)) → IsSorted items → IsAscending (comparing key) items
  IsSorted-IsAscending key [] s i j x y less at at' = absurd (ground (arith, at))
  IsSorted-IsAscending key (z ∷ items) s zero zero x y less at at' = absurd (omega arith)
  IsSorted-IsAscending key (z ∷ items) s zero (suc j) x y less at at' =
      ordered key x y
        (subst (λ w. Before w y) {x = z} {y = x} (cc) (All-at (Before z) items j y s.0 at'))
  IsSorted-IsAscending key (z ∷ items) s (suc i) zero x y less at at' = absurd (omega arith)
  IsSorted-IsAscending key (z ∷ items) s (suc i) (suc j) x y less at at' =
      IsSorted-IsAscending key items s.1 i j x y (omega arith) at at'

  pub lookup-first_not_below :
      (n : Node K) (key : Key K)
      → IsSorted n.items
      → Leaf.lookup K n key ≡ first_not_below (comparing key) n.items
  unfolding Leaf.lookup
  lookup-first_not_below n key s =
      lower_bound-first_not_below (comparing key) n.items (IsSorted-IsAscending key n.items s)

  abbrev pub position : Key K → List (Item K) → ℕ
  position key items = (first_not_below (comparing key) items).0

  abbrev pub found : Key K → List (Item K) → Bool
  found key items = (first_not_below (comparing key) items).1

  pub All-insert :
      (P : Item K → Type 0) (i : ℕ) (x : Item K) (items : List (Item K))
      → P x
      → All P items
      → All P (take i items ++ x ∷ drop i items)
  All-insert P zero x items h l = (h, l)
  All-insert P (suc i) x [] h l = (h, tt)
  All-insert P (suc i) x (y ∷ items) h l = (l.0, All-insert P i x items h l.1)

  pub Before-all :
      (x y : Item K) (items : List (Item K))
      → Before x y
      → All (Before y) items
      → All (Before x) items
  Before-all x y [] h l = tt
  Before-all x y (z ∷ items) h l = (compare-trans x.0 y.0 z.0 h l.0, Before-all x y items h l.1)

  -- What is above the key has it not.
  pub none_above :
      (key : Key K) (x : Item K) (items : List (Item K))
      → comparing key x ≡ Ordering.gt
      → All (Before x) items
      → slot_of key items ≡ none
  none_above key x [] k l = refl
  none_above key x (y ∷ items) k l =
      rw (gt_below key x y k l.0, slot_of) (none_above key x items k l.1)

  pub none_after :
      (key : Key K) (x : Item K) (items : List (Item K))
      → comparing key x ≡ Ordering.eq
      → All (Before x) items
      → slot_of key items ≡ none
  none_after key x [] k l = refl
  none_after key x (y ∷ items) k l =
      rw (at_below key x y k l.0, slot_of) (none_after key x items k l.1)

  unfoldable pub at_order : Key K → List (Item K) → Ordering → ℕ × Bool
  at_order key items o = found_at (comparing key) 0 o (first_not_below (comparing key) items)

  pub found-order :
      (key : Key K) (x : Item K) (items : List (Item K)) (o : Ordering)
      → comparing key x ≡ o
      → found key (x ∷ items) ≡ (at_order key items o).1
  unfolding at_order
  found-order key x items o k = ap (λ o. (at_order key items o).1) k

  pub found-slot_of :
      (key : Key K) (items : List (Item K))
      → IsSorted items
      → ((found key items ≡ true) × (slot : Slot) × (slot_of key items ≡ some slot))
        ⊎ ((found key items ≡ false) × (slot_of key items ≡ none))
  unfolding at_order
  found-slot_of key [] s = inr (refl, refl)
  found-slot_of key (x ∷ items) s = by_order (comparing key x) refl (found-slot_of key items s.1)
    where
      by_order :
          (o : Ordering)
          → comparing key x ≡ o
          → ((found key items ≡ true) × (slot : Slot) × (slot_of key items ≡ some slot))
            ⊎ ((found key items ≡ false) × (slot_of key items ≡ none))
          → ((found key (x ∷ items) ≡ true) × (slot : Slot) × (slot_of key (x ∷ items) ≡ some slot))
            ⊎ ((found key (x ∷ items) ≡ false) × (slot_of key (x ∷ items) ≡ none))
      by_order Ordering.lt k (inl (f, slot, e)) =
          inl (found-order key x items Ordering.lt k ∙ f, slot, rw (k, slot_of) e)
      by_order Ordering.lt k (inr (f, e)) =
          inr (found-order key x items Ordering.lt k ∙ f, rw (k, slot_of) e)
      by_order Ordering.eq k later =
          inl (found-order key x items Ordering.eq k, x.1, rw (k, slot_of) refl)
      by_order Ordering.gt k later =
          inr
            (found-order key x items Ordering.gt k, rw (k, slot_of) (none_above key x items k s.0))

  -- The map after a write.
  abbrev pub updated : Key K → Option Slot → (Key K → Option Slot) → Key K → Option Slot
  updated key slot map other = elim (compare_keys key other) [ Ordering.eq ↦ slot | _ ↦ map other ]
