-- ===== src/Index/Parted.antt =====
-- The leaves before and behind the leaf for a key have lower and higher items only.
use Prim.Native.Nat.{Ordering}
use mathlib.Core.List.{append_assoc}
use miniob4cqu_db_exp.Common.{
  ℕ, ◌≡◌, ◌≢◌, refl, sym, ap, subst, ◌∙◌, Option, some, List, [], ◌∷◌, ◌++◌, All, All-append, arith,
}
use miniob4cqu_db_exp.Index.Page.{IndexKeys, Key, Item, Page, Slot, rid, child}
use miniob4cqu_db_exp.Index.LeafOrder.{IsSorted, Before, comparing}
use miniob4cqu_db_exp.Index.Select.{select, select_at}
use miniob4cqu_db_exp.Index.Shape.{
  AtLeast, Under, OnChild, Children, all_items, All-map, Before-AtLeast, Children-AtLeast,
}
use miniob4cqu_db_exp.Index.Leaves.{
  child_leaves, all_leaves, flatten, flatten-append, flatten-all_leaves,
}

module _ (K : IndexKeys) where
  open K.order use {compare_keys, compare-self, compare-eq, compare-gt, compare-lt, compare-trans}

  abbrev pub Low : Key K → Item K → Type 0
  Low key x = comparing K key x ≡ Ordering.lt

  abbrev pub High : Key K → Item K → Type 0
  High key x = comparing K key x ≡ Ordering.gt

  Under-Low :
      (key : Key K) (x y : Item K)
      → comparing K key x ≢ Ordering.gt
      → Under K (some x.0) y
      → Low key y
  Under-Low key x y le under = by_order (comparing K key x) refl
    where
      by_order : (o : Ordering) → comparing K key x ≡ o → Low key y
      by_order Ordering.lt k = compare-trans y.0 x.0 key under k
      by_order Ordering.eq k = ap (compare_keys y.0) (sym (compare-eq x.0 key k)) ∙ under
      by_order Ordering.gt k = absurd (le k)

  AtLeast-High :
      (key : Key K) (x y : Item K)
      → comparing K key x ≡ Ordering.gt
      → AtLeast K (some x.0) y
      → High key y
  AtLeast-High key x y over above = by_order (compare_keys x.0 y.0) refl
    where
      by_order : (o : Ordering) → compare_keys x.0 y.0 ≡ o → High key y
      by_order Ordering.lt k =
          compare-lt key y.0 (compare-trans key x.0 y.0 (compare-gt x.0 key over) k)
      by_order Ordering.eq k = ap (λ a. compare_keys a key) (sym (compare-eq x.0 y.0 k)) ∙ over
      by_order Ordering.gt k = absurd (above k)

  -- The leaves in the middle, with the lower items before them and the higher ones behind them.
  pub record Parted (pages : ℕ → Page K) (key : Key K) (all middle : List ℕ) : Type 0 where
    pub before : List ℕ
    pub after : List ℕ
    pub parts : all ≡ before ++ (middle ++ after)
    pub lower : All (Low key) (flatten K pages before)
    pub higher : All (High key) (flatten K pages after)

  pub Parted-trans :
      (pages : ℕ → Page K) (key : Key K) (all middle inner : List ℕ)
      → Parted pages key all middle
      → Parted pages key middle inner
      → Parted pages key all inner
  Parted-trans pages key all middle inner m i = record {
    before = m.before ++ i.before;
    after = i.after ++ m.after;
    parts =
        m.parts
        ∙ ap (λ l. m.before ++ (l ++ m.after)) i.parts
        ∙ ap (λ l. m.before ++ l)
            (append_assoc i.before (inner ++ i.after) m.after
              ∙ ap (λ l. i.before ++ l) (append_assoc inner i.after m.after))
        ∙ sym (append_assoc m.before i.before (inner ++ (i.after ++ m.after)));
    lower = subst (All (Low key)) (sym (flatten-append K pages m.before i.before)) (
        All-append (Low key) (flatten K pages m.before) (flatten K pages i.before) m.lower i.lower);
    higher = subst (All (High key)) (sym (flatten-append K pages i.after m.after)) (
        All-append (High key) (flatten K pages i.after) (flatten K pages m.after) i.higher
          m.higher);
  }

  module _ (P : Option (Key K) → Option (Key K) → ℕ → Type 0) (pages : ℕ → Page K)
      (leaves : ℕ → List ℕ) (items : ℕ → List (Item K)) where
    child-Low :
        (key : Key K) (slot : Slot) (x : Item K) (low : Option (Key K))
        → ((c : ℕ) → flatten K pages (leaves c) ≡ items c)
        → ((low high : Option (Key K)) (c : ℕ) → P low high c → All (Under K high) (items c))
        → comparing K key x ≢ Ordering.gt
        → OnChild K (P low (some x.0)) slot
        → All (Low key) (flatten K pages (child_leaves K leaves slot))
    child-Low key (child c) x low e f le h = subst (All (Low key)) (sym (e c)) (
        All-map K (Under K (some x.0)) (Low key) (items c) (λ y. Under-Low key x y le)
          (f low (some x.0) c h))
    child-Low key (rid r) x low e f le h = elim h [ ]

    pub Parted-select :
        ((c : ℕ) → flatten K pages (leaves c) ≡ items c)
        → ((low high : Option (Key K)) (c : ℕ) → P low high c → All (AtLeast K low) (items c))
        → ((low high : Option (Key K)) (c : ℕ) → P low high c → All (Under K high) (items c))
        → (key : Key K) (low high : Option (Key K)) (x : Item K) (rest : List (Item K))
        → IsSorted K rest
        → Children K P low high x rest
        → Parted pages key
            (all_leaves K leaves (x ∷ rest))
            (child_leaves K leaves (select K key x rest).1)
    Parted-select e f g key low high x [] s h = record {
      before = [];
      after = [];
      parts = refl;
      lower = tt;
      higher = tt;
    }
    Parted-select e f g key low high x (y ∷ rest) s h =
        by_order (comparing K key y) refl (Parted-select e f g key (some y.0) high y rest s.1 h.1)
      where
        beyond :
            comparing K key y ≡ Ordering.gt
            → All (High key) (flatten K pages (all_leaves K leaves (y ∷ rest)))
        beyond k =
            subst (All (High key)) (sym (flatten-all_leaves K pages leaves items e (y ∷ rest))) (
              All-map K (AtLeast K (some y.0)) (High key) (all_items K items (y ∷ rest))
                (λ z. AtLeast-High key y z k)
                (Children-AtLeast K P items f (some y.0) (some y.0) high y rest (λ z h. h)
                  (All-map K (Before K y) (AtLeast K (some y.0)) rest (λ z. Before-AtLeast K y z)
                    s.0)
                  h.1))

        further :
            comparing K key y ≢ Ordering.gt
            → Parted pages key
                (all_leaves K leaves (y ∷ rest))
                (child_leaves K leaves (select K key y rest).1)
            → Parted pages key
                (all_leaves K leaves (x ∷ y ∷ rest))
                (child_leaves K leaves (select K key y rest).1)
        further le later = record {
          before = child_leaves K leaves x.1 ++ later.before;
          after = later.after;
          parts =
              ap (λ l. child_leaves K leaves x.1 ++ l) later.parts
              ∙ sym (
                  append_assoc (child_leaves K leaves x.1) later.before
                    (child_leaves K leaves (select K key y rest).1 ++ later.after));
          lower =
              subst (All (Low key))
                (sym (flatten-append K pages (child_leaves K leaves x.1) later.before))
                (All-append (Low key) (flatten K pages (child_leaves K leaves x.1))
                  (flatten K pages later.before) (child-Low key x.1 y low e g le h.0) later.lower);
          higher = later.higher;
        }

        by_order :
            (o : Ordering)
            → comparing K key y ≡ o
            → Parted pages key
                (all_leaves K leaves (y ∷ rest))
                (child_leaves K leaves (select K key y rest).1)
            → Parted pages key
                (all_leaves K leaves (x ∷ y ∷ rest))
                (child_leaves K leaves (select_at K o x (select K key y rest)).1)
        by_order Ordering.gt k later = record {
          before = [];
          after = all_leaves K leaves (y ∷ rest);
          parts = refl;
          lower = tt;
          higher = beyond k;
        }
        by_order Ordering.eq k later = further (λ over. ground (arith, k, over)) later
        by_order Ordering.lt k later = further (λ over. ground (arith, k, over)) later
