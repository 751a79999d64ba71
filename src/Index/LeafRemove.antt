-- ===== src/Index/LeafRemove.antt =====
-- `remove` at the position of a key keeps the order and takes the key from the map.
use Prim.Native.Nat.{Ordering}
use miniob4cqu_db_exp.Common.{
  ℕ, zero, suc, ◌≡◌, refl, sym, ap, ◌∙◌, subst, true, none, List, [], ◌∷◌, ◌++◌, take, drop, All,
  arith,
}
use miniob4cqu_db_exp.Index.Page.{IndexKeys, Key, Item}
use miniob4cqu_db_exp.Index.LeafOrder.{
  IsSorted, slot_of, comparing, Before, position, found, updated, none_after, at_order, found-order,
}

module _ (K : IndexKeys) where
  open K.order use {compare_keys, compare-self, compare-eq, compare-gt, compare-lt, compare-trans}

  -- `remove` at the position of a key that is there.
  abbrev pub removed : Key K → List (Item K) → List (Item K)
  removed key items = take (position K key items) items ++ drop (suc (position K key items)) items

  removed-lt :
      (key : Key K) (x : Item K) (items : List (Item K))
      → comparing K key x ≡ Ordering.lt
      → removed key (x ∷ items) ≡ x ∷ removed key items
  unfolding at_order
  removed-lt key x items k =
      ap
        (λ o.
          take (at_order K key items o).0 (x ∷ items)
          ++ drop (suc (at_order K key items o).0) (x ∷ items))
        k

  removed-eq :
      (key : Key K) (x : Item K) (items : List (Item K))
      → comparing K key x ≡ Ordering.eq
      → removed key (x ∷ items) ≡ items
  unfolding at_order
  removed-eq key x items k =
      ap
        (λ o.
          take (at_order K key items o).0 (x ∷ items)
          ++ drop (suc (at_order K key items o).0) (x ∷ items))
        k

  All-removed :
      (P : Item K → Type 0) (i : ℕ) (items : List (Item K))
      → All P items
      → All P (take i items ++ drop (suc i) items)
  All-removed P zero [] l = tt
  All-removed P (suc i) [] l = tt
  All-removed P zero (y ∷ items) l = l.1
  All-removed P (suc i) (y ∷ items) l = (l.0, All-removed P i items l.1)

  pub removed-IsSorted :
      (key : Key K) (items : List (Item K))
      → IsSorted K items
      → found K key items ≡ true
      → IsSorted K (removed key items)
  unfolding at_order
  removed-IsSorted key [] s h = tt
  removed-IsSorted key (x ∷ items) s h =
      by_order (comparing K key x) refl (removed-IsSorted key items s.1)
    where
      by_order :
          (o : Ordering)
          → comparing K key x ≡ o
          → (found K key items ≡ true → IsSorted K (removed key items))
          → IsSorted K (removed key (x ∷ items))
      by_order Ordering.lt k later = subst (IsSorted K) (sym (removed-lt key x items k)) (
        All-removed (Before K x) (position K key items) items s.0,
        later (sym (found-order K key x items Ordering.lt k) ∙ h),
      )
      by_order Ordering.eq k later = subst (IsSorted K) (sym (removed-eq key x items k)) s.1
      by_order Ordering.gt k later = absurd (cc (sym (found-order K key x items Ordering.gt k) ∙ h))

  pub slot_of-removed :
      (key other : Key K) (items : List (Item K))
      → IsSorted K items
      → found K key items ≡ true
      → slot_of K other (removed key items) ≡ updated K key none (λ k. slot_of K k items) other
  unfolding at_order
  slot_of-removed key other [] s h = absurd (cc h)
  slot_of-removed key other (x ∷ items) s h =
      by_order (comparing K key x) refl (slot_of-removed key other items s.1)
    where
      by_order :
          (o : Ordering)
          → comparing K key x ≡ o
          → (found K key items ≡ true
              → slot_of K other (removed key items)
                ≡ updated K key none (λ k. slot_of K k items) other)
          → slot_of K other (removed key (x ∷ items))
            ≡ updated K key none (λ k. slot_of K k (x ∷ items)) other
      by_order Ordering.lt k later =
          ap (slot_of K other) (removed-lt key x items k)
          ∙ ground (
            arith,
            k,
            later (sym (found-order K key x items Ordering.lt k) ∙ h),
            compare-eq x.0 other,
            compare-eq key other,
            compare-self other,
          )
      by_order Ordering.gt k later = absurd (cc (sym (found-order K key x items Ordering.gt k) ∙ h))
      by_order Ordering.eq k later =
          ap (slot_of K other) (removed-eq key x items k)
          ∙ ground
              (arith, k, compare-eq x.0 key, compare-eq key other, none_after K key x items k s.0)
