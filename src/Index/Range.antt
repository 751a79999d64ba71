-- ===== src/Index/Range.antt =====
-- The items of a tree are in order, and those of a range follow one another.
use Prim.Native.Nat.{Ordering}
use miniob4cqu_db_exp.Common.{
  ℕ, zero, suc, ◌≡◌, refl, sym, ap, ◌∙◌, subst, Bool, true, false, Option, none, some, List, [],
  ◌∷◌, ◌++◌, All, drop, arith, if◌then◌else◌,
}
use miniob4cqu_db_exp.Index.Page.{IndexKeys, Key, Item, Page, Slot, rid, child, Rid}
use miniob4cqu_db_exp.Index.LeafOrder.{IsSorted, Before, comparing, at_below, gt_below, position}
use miniob4cqu_db_exp.Index.SortedParts.{IsSorted-append}
use miniob4cqu_db_exp.Index.SearchBounds.{first_not_below, found_at}
use miniob4cqu_db_exp.Index.Shape.{
  AtLeast, Under, OnChild, Children, IsTree, child_items, all_items, items_of, All-map,
  Before-AtLeast, Children-AtLeast, items_of-AtLeast, items_of-Under,
}
use miniob4cqu_db_exp.Index.Parted.{Low, High}
use miniob4cqu_db_exp.Index.Chain.{rid_in, past, rids_to}

module _ (K : IndexKeys) where
  append-nil : (xs : List (Item K)) → xs ++ [] ≡ xs
  append-nil [] = refl
  append-nil (x ∷ xs) = ap (λ l. x ∷ l) (append-nil xs)

  module _ (P : Option (Key K) → Option (Key K) → ℕ → Type 0) (items : ℕ → List (Item K)) where
    child-IsSorted :
        (low high : Option (Key K)) (slot : Slot)
        → ((low high : Option (Key K)) (c : ℕ) → P low high c → IsSorted K (items c))
        → OnChild K (P low high) slot
        → IsSorted K (child_items K items slot)
    child-IsSorted low high (child c) f h = f low high c h
    child-IsSorted low high (rid r) f h = elim h [ ]

    child-Under :
        (low high : Option (Key K)) (slot : Slot)
        → ((low high : Option (Key K)) (c : ℕ) → P low high c → All (Under K high) (items c))
        → OnChild K (P low high) slot
        → All (Under K high) (child_items K items slot)
    child-Under low high (child c) f h = f low high c h
    child-Under low high (rid r) f h = elim h [ ]

    Children-IsSorted :
        ((low high : Option (Key K)) (c : ℕ) → P low high c → IsSorted K (items c))
        → ((low high : Option (Key K)) (c : ℕ) → P low high c → All (AtLeast K low) (items c))
        → ((low high : Option (Key K)) (c : ℕ) → P low high c → All (Under K high) (items c))
        → (low high : Option (Key K)) (x : Item K) (rest : List (Item K)) → IsSorted K rest
        → Children K P low high x rest
        → IsSorted K (all_items K items (x ∷ rest))
    Children-IsSorted e f g low high x [] s h =
        subst (IsSorted K) (sym (append-nil (child_items K items x.1)))
          (child-IsSorted low high x.1 e h)
    Children-IsSorted e f g low high x (y ∷ rest) s h =
        IsSorted-append K y (child_items K items x.1) (all_items K items (y ∷ rest))
          (child-IsSorted low (some y.0) x.1 e h.0)
          (Children-IsSorted e f g (some y.0) high y rest s.1 h.1)
          (child-Under low (some y.0) x.1 g h.0)
          (Children-AtLeast K P items f (some y.0) (some y.0) high y rest (λ z h. h)
            (All-map K (Before K y) (AtLeast K (some y.0)) rest (λ z. Before-AtLeast K y z) s.0)
            h.1)

  pub items_of-IsSorted :
      (pages : ℕ → Page K) (height : ℕ) (low high : Option (Key K)) (p : ℕ)
      → IsTree K pages height low high p
      → IsSorted K (items_of K pages height p)
  items_of-IsSorted pages zero low high p (n, at, leaf, sorted, above, below) = rw at sorted
  items_of-IsSorted pages (suc height) low high p
        (n, x, rest, at, inner, is, sorted, above, below, children) =
      rw at (
        rw is (
          Children-IsSorted (IsTree K pages height) (items_of K pages height)
            (items_of-IsSorted pages height) (items_of-AtLeast K pages height)
            (items_of-Under K pages height) low high x rest sorted children))

  abbrev pub below : Key K → Item K → Bool
  below left x = elim (comparing K left x) [ Ordering.lt ↦ true | _ ↦ false ]

  -- The records of the items that are not below the left key and not past the right one.
  abbrev pub rids_in : Key K → Option (Key K) → List (Item K) → List Rid
  rids_in left right [] = []
  rids_in left right (x ∷ items) =
      if below left x
      then rids_in left right items
      else if past K right x
      then rids_in left right items
      else rid_in K x ∷ rids_in left right items

  pub rids_in-Low :
      (left : Key K) (right : Option (Key K)) (xs ys : List (Item K))
      → All (Low K left) xs
      → rids_in left right (xs ++ ys) ≡ rids_in left right ys
  rids_in-Low left right [] ys h = refl
  rids_in-Low left right (x ∷ xs) ys h =
      ap
        (λ o.
          if (elim o [ Ordering.lt ↦ true | _ ↦ false ])
          then rids_in left right (xs ++ ys)
          else if past K right x
          then rids_in left right (xs ++ ys)
          else rid_in K x ∷ rids_in left right (xs ++ ys))
        h.0
      ∙ rids_in-Low left right xs ys h.1

  abbrev NotBelow : Key K → Item K → Type 0
  NotBelow left x = below left x ≡ false

  past-Before :
      (right : Option (Key K)) (x y : Item K)
      → past K right x ≡ true
      → Before K x y
      → past K right y ≡ true
  past-Before none x y over h = absurd (ground (arith, over))
  past-Before (some right) x y over h = by_order (comparing K right x) refl over
    where
      by_order :
          (o : Ordering)
          → comparing K right x ≡ o
          → (elim o [ Ordering.gt ↦ true | _ ↦ false ]) ≡ true
          → past K (some right) y ≡ true
      by_order Ordering.lt k over = absurd (ground (arith, over))
      by_order Ordering.eq k over = absurd (ground (arith, over))
      by_order Ordering.gt k over =
          ap (λ o. elim o [ Ordering.gt ↦ true | _ ↦ false ]) (gt_below K right x y k h)

  all_past :
      (left : Key K) (right : Option (Key K)) (items : List (Item K))
      → All (λ x. past K right x ≡ true) items
      → rids_in left right items ≡ []
  all_past left right [] h = refl
  all_past left right (x ∷ items) h =
      rw h.0 (by_below (below left x) (all_past left right items h.1))
    where
      by_below :
          (b : Bool)
          → rids_in left right items ≡ []
          → (if b then rids_in left right items else rids_in left right items) ≡ []
      by_below true later = later
      by_below false later = later

  pub rids_in-rids_to :
      (left : Key K) (right : Option (Key K)) (items : List (Item K))
      → IsSorted K items
      → All (NotBelow left) items
      → rids_in left right items ≡ rids_to K right items
  rids_in-rids_to left right [] s h = refl
  rids_in-rids_to left right (x ∷ items) s h =
      rw h.0 (by_past (past K right x) refl (rids_in-rids_to left right items s.1 h.1))
    where
      by_past :
          (b : Bool)
          → past K right x ≡ b
          → rids_in left right items ≡ rids_to K right items
          → (if b then rids_in left right items else rid_in K x ∷ rids_in left right items)
            ≡ (if b then [] else rid_in K x ∷ rids_to K right items)
      by_past true over later = all_past left right items (
          All-map K (Before K x) (λ y. past K right y ≡ true) items
            (λ y. past-Before right x y over) s.0)
      by_past false over later = ap (λ l. rid_in K x ∷ l) later

  High-NotBelow : (left : Key K) (x : Item K) → High K left x → NotBelow left x
  High-NotBelow left x h = ap (λ o. elim o [ Ordering.lt ↦ true | _ ↦ false ]) h

  -- The range begins at the position of the left key.
  pub rids_in-position :
      (left : Key K) (right : Option (Key K)) (items after : List (Item K))
      → IsSorted K (items ++ after)
      → All (High K left) after
      → rids_in left right (items ++ after)
        ≡ rids_to K right (drop (position K left items) items ++ after)
  rids_in-position left right [] after s h =
      rids_in-rids_to left right after s
        (All-map K (High K left) (NotBelow left) after (High-NotBelow left) h)
  rids_in-position left right (x ∷ items) after s h =
      by_order (comparing K left x) refl (rids_in-position left right items after s.1 h)
    where
      from_here :
          NotBelow left x
          → ((y : Item K) → Before K x y → High K left y)
          → rids_in left right (x ∷ (items ++ after)) ≡ rids_to K right (x ∷ (items ++ after))
      from_here here later = rids_in-rids_to left right (x ∷ (items ++ after)) s (
        here,
        All-map K (Before K x) (NotBelow left) (items ++ after)
            (λ y b. High-NotBelow left y (later y b)) s.0,
      )

      found :
          (o : Ordering)
          → comparing K left x ≡ o
          → drop (position K left (x ∷ items)) (x ∷ items) ++ after
            ≡ drop
                (found_at (comparing K left) 0 o (first_not_below (comparing K left) items)).0
                (x ∷ items)
              ++ after
      found o k =
          ap
            (λ o.
              drop (found_at (comparing K left) 0 o (first_not_below (comparing K left) items)).0
                (x ∷ items)
              ++ after)
            k

      by_order :
          (o : Ordering)
          → comparing K left x ≡ o
          → rids_in left right (items ++ after)
            ≡ rids_to K right (drop (position K left items) items ++ after)
          → rids_in left right (x ∷ (items ++ after))
            ≡ rids_to K right (drop (position K left (x ∷ items)) (x ∷ items) ++ after)
      by_order Ordering.lt k later =
          rids_in-Low left right (x ∷ []) (items ++ after) (k, tt)
          ∙ later
          ∙ ap (rids_to K right) (sym (found Ordering.lt k))
      by_order Ordering.eq k later =
          from_here (ap (λ o. elim o [ Ordering.lt ↦ true | _ ↦ false ]) k)
            (λ y b. at_below K left x y k b)
          ∙ ap (rids_to K right) (sym (found Ordering.eq k))
      by_order Ordering.gt k later =
          from_here (ap (λ o. elim o [ Ordering.lt ↦ true | _ ↦ false ]) k)
            (λ y b. gt_below K left x y k b)
          ∙ ap (rids_to K right) (sym (found Ordering.gt k))
