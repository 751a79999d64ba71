-- ===== src/Index/Select.antt =====
-- The child that `lookup` of an internal node selects.
use Prim.Native.Nat.{Ordering}
use miniob4cqu_db_exp.Common.{
  ℕ, suc, ◌+◌, ◌-◌, ◌≡◌, ◌≢◌, refl, sym, ap, ◌∙◌, Bool, Option, none, some, List, [], ◌∷◌, ◌++◌,
  All, get_elem?, arith,
}
use miniob4cqu_db_exp.Index.Page.{IndexKeys, Key, Item}
use miniob4cqu_db_exp.Index.Internal
use miniob4cqu_db_exp.Index.SearchBounds.{first_not_below}
use miniob4cqu_db_exp.Index.LeafOrder.{IsSorted, Before, slot_of, comparing, at_below}
use miniob4cqu_db_exp.Index.Shape.{OnChild, Children}

module _ (K : IndexKeys) where
  open K.order use {compare_keys, compare-self, compare-eq, compare-gt, compare-lt, compare-trans}

  abbrev pub select_at : Ordering → Item K → Item K → Item K
  select_at Ordering.gt here later = here
  select_at _ here later = later

  -- The last item, the first apart, whose key is not above the key.
  abbrev pub select : Key K → Item K → List (Item K) → Item K
  select key x [] = x
  select key x (y ∷ rest) = select_at (comparing K key y) x (select key y rest)

  abbrev pub place_of : Key K → List (Item K) → ℕ × Bool
  place_of key items = first_not_below (comparing K key) items

  select-first :
      (key : Key K) (y : Item K) (rest : List (Item K))
      → comparing K key y ≡ Ordering.eq
      → All (Before K y) rest
      → select key y rest ≡ y
  select-first key y [] same above = refl
  select-first key y (z ∷ rest) same above =
      ap (λ o. select_at o y (select key z rest)) (at_below K key y z same above.0)

  child_index-suc :
      (key : Key K) (x : Item K) (items : List (Item K)) (i : ℕ)
      → Internal.child_index K (x ∷ items) key (suc (i + 1))
        ≡ suc (Internal.child_index K items key (i + 1))
  child_index-suc key x items i = by_item (get_elem? items (i + 1))
    where
      by_order :
          (o : Ordering)
          → elim o [ Ordering.lt ↦ suc (i + 1) - 1 | _ ↦ suc (i + 1) ]
            ≡ suc (elim o [ Ordering.lt ↦ i + 1 - 1 | _ ↦ i + 1 ])
      by_order Ordering.lt = omega arith
      by_order Ordering.eq = refl
      by_order Ordering.gt = refl

      by_item :
          (o : Option (Item K))
          → elim o [
            | none ↦ suc (i + 1) - 1
            | some z ↦ elim (compare_keys key z.0) [
              | Ordering.lt ↦ suc (i + 1) - 1
              | _ ↦ suc (i + 1)
            ]
          ]
            ≡ suc (elim o [
              | none ↦ i + 1 - 1
              | some z ↦ elim (compare_keys key z.0) [ Ordering.lt ↦ i + 1 - 1 | _ ↦ i + 1 ]
            ])
      by_item none = omega arith
      by_item (some z) = by_order (compare_keys key z.0)

  pub child_index-select :
      (key : Key K) (x : Item K) (rest : List (Item K))
      → IsSorted K rest
      → get_elem? (x ∷ rest) (Internal.child_index K (x ∷ rest) key ((place_of key rest).0 + 1))
        ≡ some (select key x rest)
  child_index-select key x [] s = refl
  child_index-select key x (y ∷ rest) s =
      by_order (comparing K key y) refl (child_index-select key y rest s.1)
    where
      equal : comparing K key y ≡ Ordering.eq → compare_keys key y.0 ≡ Ordering.eq
      equal k = ap (compare_keys key) (compare-eq y.0 key k) ∙ compare-self key

      shift : suc (place_of key rest).0 + 1 ≡ suc ((place_of key rest).0 + 1)
      shift = omega arith

      by_order :
          (o : Ordering)
          → comparing K key y ≡ o
          → get_elem? (y ∷ rest) (Internal.child_index K (y ∷ rest) key ((place_of key rest).0 + 1))
            ≡ some (select key y rest)
          → get_elem?
              (x ∷ y ∷ rest)
              (Internal.child_index K (x ∷ y ∷ rest) key ((place_of key (y ∷ rest)).0 + 1))
            ≡ some (select key x (y ∷ rest))
      by_order Ordering.gt k later = rw k (rw (compare-gt y.0 key k) refl)
      by_order Ordering.eq k later =
          rw k (rw (equal k) (ap some (sym (select-first key y rest k s.0))))
      by_order Ordering.lt k later = rw k (
          ap (λ j. get_elem? (x ∷ y ∷ rest) (Internal.child_index K (x ∷ y ∷ rest) key j)) shift
          ∙ ap (get_elem? (x ∷ y ∷ rest)) (child_index-suc key x (y ∷ rest) (place_of key rest).0)
          ∙ later)

  abbrev pub Apart : Key K → Item K → Type 0
  Apart key x = comparing K key x ≢ Ordering.eq

  pub slot_of-append_left :
      (key : Key K) (items others : List (Item K))
      → All (Apart key) others
      → slot_of K key (items ++ others) ≡ slot_of K key items
  slot_of-append_left key [] [] h = refl
  slot_of-append_left key [] (x ∷ others) h =
      by_order (comparing K key x) refl (slot_of-append_left key [] others h.1)
    where
      by_order :
          (o : Ordering)
          → comparing K key x ≡ o
          → slot_of K key others ≡ none
          → slot_of K key (x ∷ others) ≡ none
      by_order Ordering.lt k later = rw (k, slot_of) later
      by_order Ordering.eq k later = absurd (h.0 k)
      by_order Ordering.gt k later = rw (k, slot_of) later
  slot_of-append_left key (x ∷ items) others h =
      ap (λ l. elim (comparing K key x) [ Ordering.eq ↦ some x.1 | _ ↦ l ])
        (slot_of-append_left key items others h)

  pub slot_of-append_right :
      (key : Key K) (items others : List (Item K))
      → All (Apart key) items
      → slot_of K key (items ++ others) ≡ slot_of K key others
  slot_of-append_right key [] others h = refl
  slot_of-append_right key (x ∷ items) others h =
      by_order (comparing K key x) refl (slot_of-append_right key items others h.1)
    where
      by_order :
          (o : Ordering)
          → comparing K key x ≡ o
          → slot_of K key (items ++ others) ≡ slot_of K key others
          → slot_of K key (x ∷ (items ++ others)) ≡ slot_of K key others
      by_order Ordering.lt k later = rw (k, slot_of) later
      by_order Ordering.eq k later = absurd (h.0 k)
      by_order Ordering.gt k later = rw (k, slot_of) later

  module _ (P : Option (Key K) → Option (Key K) → ℕ → Type 0) where
    pub select-OnChild :
        (key : Key K) (low high : Option (Key K)) (x : Item K) (rest : List (Item K))
        → Children K P low high x rest
        → (low' high' : Option (Key K)) × (OnChild K (P low' high') (select key x rest).1)
    select-OnChild key low high x [] h = (low, high, h)
    select-OnChild key low high x (y ∷ rest) h =
        by_order (comparing K key y) (select-OnChild key (some y.0) high y rest h.1)
      where
        by_order :
            (o : Ordering)
            → (low' high' : Option (Key K)) × (OnChild K (P low' high') (select key y rest).1)
            → (low' high' : Option (Key K)) × (OnChild K
                (P low' high')
                (select_at o x (select key y rest)).1)
        by_order Ordering.gt later = (low, some y.0, h.0)
        by_order Ordering.eq later = later
        by_order Ordering.lt later = later
