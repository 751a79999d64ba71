-- ===== src/Index/LeafInsert.antt =====
-- `insert` at the position of a key keeps the order and adds the key to the map.
use Prim.Native.Nat.{Ordering}
use miniob4cqu_db_exp.Common.{
  ◌≡◌, refl, sym, ap, ◌∙◌, subst, false, some, List, [], ◌∷◌, ◌++◌, take, drop, arith,
}
use miniob4cqu_db_exp.Index.Page.{IndexKeys, Key, Item, Slot}
use miniob4cqu_db_exp.Index.LeafOrder.{
  IsSorted, slot_of, comparing, Before, position, found, updated, All-insert, Before-all, at_order,
  found-order,
}

module _ (K : IndexKeys) where
  open K.order use {compare_keys, compare-self, compare-eq, compare-gt, compare-lt, compare-trans}

  -- `insert` at the position of a key that is not there.
  abbrev pub inserted : Key K → Slot → List (Item K) → List (Item K)
  inserted key slot items =
      take (position K key items) items ++ (key, slot) ∷ drop (position K key items) items

  pub inserted-lt :
      (key : Key K) (slot : Slot) (x : Item K) (items : List (Item K))
      → comparing K key x ≡ Ordering.lt
      → inserted key slot (x ∷ items) ≡ x ∷ inserted key slot items
  unfolding at_order
  inserted-lt key slot x items k =
      ap
        (λ o.
          take (at_order K key items o).0 (x ∷ items)
          ++ (key, slot) ∷ drop (at_order K key items o).0 (x ∷ items))
        k

  pub inserted-gt :
      (key : Key K) (slot : Slot) (x : Item K) (items : List (Item K))
      → comparing K key x ≡ Ordering.gt
      → inserted key slot (x ∷ items) ≡ (key, slot) ∷ x ∷ items
  unfolding at_order
  inserted-gt key slot x items k =
      ap
        (λ o.
          take (at_order K key items o).0 (x ∷ items)
          ++ (key, slot) ∷ drop (at_order K key items o).0 (x ∷ items))
        k

  pub inserted-IsSorted :
      (key : Key K) (slot : Slot) (items : List (Item K))
      → IsSorted K items
      → found K key items ≡ false
      → IsSorted K (inserted key slot items)
  unfolding at_order
  inserted-IsSorted key slot [] s h = (tt, tt)
  inserted-IsSorted key slot (x ∷ items) s h =
      by_order (comparing K key x) refl (inserted-IsSorted key slot items s.1)
    where
      by_order :
          (o : Ordering)
          → comparing K key x ≡ o
          → (found K key items ≡ false → IsSorted K (inserted key slot items))
          → IsSorted K (inserted key slot (x ∷ items))
      by_order Ordering.lt k later = subst (IsSorted K) (sym (inserted-lt key slot x items k)) (
        All-insert K (Before K x) (position K key items) (key, slot) items k s.0,
        later (sym (found-order K key x items Ordering.lt k) ∙ h),
      )
      by_order Ordering.eq k later = absurd (cc (sym (found-order K key x items Ordering.eq k) ∙ h))
      by_order Ordering.gt k later =
          subst (IsSorted K) (sym (inserted-gt key slot x items k))
            ((compare-gt x.0 key k, Before-all K (key, slot) x items (compare-gt x.0 key k) s.0), s)

  pub slot_of-inserted :
      (key other : Key K) (slot : Slot) (items : List (Item K))
      → IsSorted K items
      → found K key items ≡ false
      → slot_of K other (inserted key slot items)
        ≡ updated K key (some slot) (λ k. slot_of K k items) other
  unfolding at_order
  slot_of-inserted key other slot [] s h = refl
  slot_of-inserted key other slot (x ∷ items) s h =
      by_order (comparing K key x) refl (slot_of-inserted key other slot items s.1)
    where
      by_order :
          (o : Ordering)
          → comparing K key x ≡ o
          → (found K key items ≡ false
              → slot_of K other (inserted key slot items)
                ≡ updated K key (some slot) (λ k. slot_of K k items) other)
          → slot_of K other (inserted key slot (x ∷ items))
            ≡ updated K key (some slot) (λ k. slot_of K k (x ∷ items)) other
      by_order Ordering.lt k later =
          ap (slot_of K other) (inserted-lt key slot x items k)
          ∙ ground (
            arith,
            k,
            later (sym (found-order K key x items Ordering.lt k) ∙ h),
            compare-eq x.0 other,
            compare-eq key other,
            compare-self other,
          )
      by_order Ordering.eq k later = absurd (cc (sym (found-order K key x items Ordering.eq k) ∙ h))
      by_order Ordering.gt k later = ap (slot_of K other) (inserted-gt key slot x items k)
