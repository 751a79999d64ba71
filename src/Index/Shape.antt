-- ===== src/Index/Shape.antt =====
-- A B+ tree in the pages of an index: internal nodes whose keys part the keys below them, down to
-- leaves of one depth.
use Prim.Native.Nat.{Ordering}
use miniob4cqu_db_exp.Common.{
  ℕ, zero, suc, ◌≡◌, ◌≢◌, refl, sym, ap, ◌∙◌, true, false, Option, none, some, List, [], ◌∷◌, ◌++◌,
  All, All-append, arith,
}
use miniob4cqu_db_exp.Index.Page.{IndexKeys, Key, Item, Node, Page, node, Slot, rid, child}
use miniob4cqu_db_exp.Index.LeafOrder.{IsSorted, Before}

module _ (K : IndexKeys) where
  open K.order use {compare_keys, compare-self, compare-eq, compare-gt, compare-lt, compare-trans}

  -- A bound that is `none` holds for all keys.
  abbrev pub AtLeast : Option (Key K) → Item K → Type 0
  AtLeast none x = Unit
  AtLeast (some low) x = compare_keys low x.0 ≢ Ordering.gt

  abbrev pub Under : Option (Key K) → Item K → Type 0
  Under none x = Unit
  Under (some high) x = compare_keys x.0 high ≡ Ordering.lt

  abbrev pub OnChild : (ℕ → Type 0) → Slot → Type 0
  OnChild P (child c) = P c
  OnChild P (rid r) = ⊥

  -- Each child lies between its key and the next one.
  abbrev pub Children :
      (Option (Key K) → Option (Key K) → ℕ → Type 0)
      → Option (Key K)
      → Option (Key K)
      → Item K
      → List (Item K)
      → Type 0
  Children P low high x [] = OnChild (P low high) x.1
  Children P low high x (y ∷ rest) =
      OnChild (P low (some y.0)) x.1 × Children P (some y.0) high y rest

  abbrev pub IsTree : (ℕ → Page K) → ℕ → Option (Key K) → Option (Key K) → ℕ → Type 0
  IsTree pages zero low high p =
      (n : Node K) × (pages p ≡ node n)
      × (n.is_leaf ≡ true)
      × IsSorted K n.items
      × All (AtLeast low) n.items
      × All (Under high) n.items
  IsTree pages (suc height) low high p =
      (n : Node K) × (x : Item K) × (rest : List (Item K)) × (pages p ≡ node n)
      × (n.is_leaf ≡ false)
      × (n.items ≡ x ∷ rest)
      × IsSorted K rest
      × All (AtLeast low) rest
      × All (Under high) rest
      × Children (IsTree pages height) low high x rest

  abbrev pub child_items : (ℕ → List (Item K)) → Slot → List (Item K)
  child_items items (child c) = items c
  child_items items (rid r) = []

  abbrev pub all_items : (ℕ → List (Item K)) → List (Item K) → List (Item K)
  all_items items [] = []
  all_items items (x ∷ rest) = child_items items x.1 ++ all_items items rest

  abbrev pub items_in : Page K → (Node K → List (Item K)) → List (Item K)
  items_in (node n) f = f n
  items_in _ f = []

  -- The items of all leaves, from left to right.
  abbrev pub items_of : (ℕ → Page K) → ℕ → ℕ → List (Item K)
  items_of pages zero p = items_in (pages p) (λ n. n.items)
  items_of pages (suc height) p =
      items_in (pages p) (λ n. all_items (items_of pages height) n.items)

  pub All-map :
      (P Q : Item K → Type 0) (items : List (Item K))
      → ((x : Item K) → P x → Q x)
      → All P items
      → All Q items
  All-map P Q [] f h = tt
  All-map P Q (x ∷ items) f h = (f x h.0, All-map P Q items f h.1)

  pub AtLeast-trans :
      (low : Option (Key K)) (x y : Item K) → AtLeast low x → AtLeast (some x.0) y → AtLeast low y
  AtLeast-trans none x y h k = tt
  AtLeast-trans (some low) x y h k = λ above. by_order (compare_keys low x.0) refl above
    where
      by_order : (o : Ordering) → compare_keys low x.0 ≡ o → compare_keys low y.0 ≡ Ordering.gt → ⊥
      by_order Ordering.lt below above =
          k (compare-lt y.0 x.0 (compare-trans y.0 low x.0 (compare-gt low y.0 above) below))
      by_order Ordering.eq same above =
          k (ap (λ b. compare_keys b y.0) (sym (compare-eq low x.0 same)) ∙ above)
      by_order Ordering.gt over above = h over

  pub Under-trans :
      (high : Option (Key K)) (x y : Item K) → Under high y → Under (some y.0) x → Under high x
  Under-trans none x y h k = tt
  Under-trans (some high) x y h k = compare-trans x.0 y.0 high k h

  pub Before-AtLeast : (x y : Item K) → Before K x y → AtLeast (some x.0) y
  Before-AtLeast x y h k = ground (arith, h, k)

  module _ (P : Option (Key K) → Option (Key K) → ℕ → Type 0) (items : ℕ → List (Item K)) where
    child-All :
        (Q : ℕ → Type 0) (R : Item K → Type 0) (slot : Slot)
        → ((c : ℕ) → Q c → All R (items c))
        → OnChild Q slot
        → All R (child_items items slot)
    child-All Q R (child c) f h = f c h
    child-All Q R (rid r) f h = tt

    pub Children-AtLeast :
        ((low high : Option (Key K)) (c : ℕ) → P low high c → All (AtLeast low) (items c))
        → (low low' high : Option (Key K)) (x : Item K) (rest : List (Item K))
        → ((y : Item K) → AtLeast low' y → AtLeast low y)
        → All (AtLeast low) rest
        → Children P low' high x rest
        → All (AtLeast low) (all_items items (x ∷ rest))
    Children-AtLeast f low low' high x [] weaken bounds h =
        All-append (AtLeast low) (child_items items x.1) []
          (child-All (P low' high) (AtLeast low) x.1
            (λ c t. All-map (AtLeast low') (AtLeast low) (items c) weaken (f low' high c t)) h)
          tt
    Children-AtLeast f low low' high x (y ∷ rest) weaken bounds h =
        All-append (AtLeast low) (child_items items x.1) (all_items items (y ∷ rest))
          (child-All (P low' (some y.0)) (AtLeast low) x.1
            (λ c t. All-map (AtLeast low') (AtLeast low) (items c) weaken (f low' (some y.0) c t))
            h.0)
          (Children-AtLeast f low (some y.0) high y rest (λ z. AtLeast-trans low y z bounds.0)
            bounds.1 h.1)

    pub Children-Under :
        ((low high : Option (Key K)) (c : ℕ) → P low high c → All (Under high) (items c))
        → (low high : Option (Key K)) (x : Item K) (rest : List (Item K)) → All (Under high) rest
        → Children P low high x rest
        → All (Under high) (all_items items (x ∷ rest))
    Children-Under f low high x [] bounds h =
        All-append (Under high) (child_items items x.1) []
          (child-All (P low high) (Under high) x.1 (f low high) h) tt
    Children-Under f low high x (y ∷ rest) bounds h =
        All-append (Under high) (child_items items x.1) (all_items items (y ∷ rest))
          (child-All (P low (some y.0)) (Under high) x.1
            (λ c t.
              All-map (Under (some y.0)) (Under high) (items c) (λ z. Under-trans high z y bounds.0)
                (f low (some y.0) c t))
            h.0)
          (Children-Under f (some y.0) high y rest bounds.1 h.1)

  pub items_of-AtLeast :
      (pages : ℕ → Page K) (height : ℕ) (low high : Option (Key K)) (p : ℕ)
      → IsTree pages height low high p
      → All (AtLeast low) (items_of pages height p)
  items_of-AtLeast pages zero low high p (n, at, leaf, sorted, above, below) = rw at above
  items_of-AtLeast pages (suc height) low high p
        (n, x, rest, at, inner, is, sorted, above, below, children) =
      rw at (
        rw is (
          Children-AtLeast (IsTree pages height) (items_of pages height)
            (items_of-AtLeast pages height) low low high x rest (λ y h. h) above children))

  pub items_of-Under :
      (pages : ℕ → Page K) (height : ℕ) (low high : Option (Key K)) (p : ℕ)
      → IsTree pages height low high p
      → All (Under high) (items_of pages height p)
  items_of-Under pages zero low high p (n, at, leaf, sorted, above, below) = rw at below
  items_of-Under pages (suc height) low high p
        (n, x, rest, at, inner, is, sorted, above, below, children) =
      rw at (
        rw is (
          Children-Under (IsTree pages height) (items_of pages height) (items_of-Under pages height)
            low high x rest below children))
