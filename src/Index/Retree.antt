-- ===== src/Index/Retree.antt =====
-- A tree in which the leaf on the way of a key is rewritten is a tree.
use Prim.Native.Nat.{Ordering}
use miniob4cqu_db_exp.Common.{
  ℕ, ◌≡◌, ◌≢◌, refl, sym, ◌∙◌, subst, Option, some, List, [], ◌∷◌, ◌++◌, ◌⊎◌, inl, inr, All, arith,
}
use miniob4cqu_db_exp.Index.Page.{IndexKeys, Key, Item, Slot, rid, child}
use miniob4cqu_db_exp.Index.LeafOrder.{comparing}
use miniob4cqu_db_exp.Index.Select.{select, select_at}
use miniob4cqu_db_exp.Index.Shape.{AtLeast, Under, OnChild, Children}
use miniob4cqu_db_exp.Index.Leaves.{child_leaves, all_leaves}
use miniob4cqu_db_exp.Index.Rewritten.{IsDistinct}

abbrev pub Has : ℕ → List ℕ → Type 0
Has p [] = ⊥
Has p (q ∷ qs) = (q ≡ p) ⊎ Has p qs

abbrev pub Lacks : ℕ → List ℕ → Type 0
Lacks p qs = All (λ q. q ≢ p) qs

Has-left : (p : ℕ) (xs ys : List ℕ) → Has p xs → Has p (xs ++ ys)
Has-left p [] ys h = elim h [ ]
Has-left p (x ∷ xs) ys (inl same) = inl same
Has-left p (x ∷ xs) ys (inr later) = inr (Has-left p xs ys later)

Has-right : (p : ℕ) (xs ys : List ℕ) → Has p ys → Has p (xs ++ ys)
Has-right p [] ys h = h
Has-right p (x ∷ xs) ys h = inr (Has-right p xs ys h)

Lacks-left : (p : ℕ) (xs ys : List ℕ) → Lacks p (xs ++ ys) → Lacks p xs
Lacks-left p [] ys h = tt
Lacks-left p (x ∷ xs) ys h = (h.0, Lacks-left p xs ys h.1)

Lacks-right : (p : ℕ) (xs ys : List ℕ) → Lacks p (xs ++ ys) → Lacks p ys
Lacks-right p [] ys h = h
Lacks-right p (x ∷ xs) ys h = Lacks-right p xs ys h.1

IsDistinct-left : (xs ys : List ℕ) → IsDistinct (xs ++ ys) → IsDistinct xs
IsDistinct-left [] ys d = tt
IsDistinct-left (x ∷ xs) ys d = (Lacks-left x xs ys d.0, IsDistinct-left xs ys d.1)

IsDistinct-right : (xs ys : List ℕ) → IsDistinct (xs ++ ys) → IsDistinct ys
IsDistinct-right [] ys d = d
IsDistinct-right (x ∷ xs) ys d = IsDistinct-right xs ys d.1

Lacks-Has : (p q : ℕ) (xs : List ℕ) → Lacks q xs → Has p xs → q ≢ p
Lacks-Has p q [] h has eq = elim has [ ]
Lacks-Has p q (x ∷ xs) h (inl same) eq = h.0 (same ∙ sym eq)
Lacks-Has p q (x ∷ xs) h (inr later) eq = Lacks-Has p q xs h.1 later eq

-- A page among the first ones is none of the others.
others-right : (p : ℕ) (xs ys : List ℕ) → IsDistinct (xs ++ ys) → Has p xs → Lacks p ys
others-right p [] ys d h = elim h [ ]
others-right p (x ∷ xs) ys d (inl same) = subst (λ q. Lacks q ys) same (Lacks-right x xs ys d.0)
others-right p (x ∷ xs) ys d (inr later) = others-right p xs ys d.1 later

others-left : (p : ℕ) (xs ys : List ℕ) → IsDistinct (xs ++ ys) → Has p ys → Lacks p xs
others-left p [] ys d h = tt
others-left p (x ∷ xs) ys d h =
    (Lacks-Has p x (xs ++ ys) d.0 (Has-right p xs ys h), others-left p xs ys d.1 h)

module _ (K : IndexKeys) where
  open K.order use {compare_keys, compare-self, compare-eq, compare-gt, compare-lt, compare-trans}

  module _ (P : Option (Key K) → Option (Key K) → ℕ → Type 0) (f : ℕ → List ℕ) (leaf : ℕ)
      (On : ℕ → Type 0) (key : Key K)
      (has : (low high : Option (Key K)) (c : ℕ) → P low high c → On c → Has leaf (f c)) where
    child-Has :
        (low high : Option (Key K)) (s : Slot)
        → OnChild K (P low high) s
        → OnChild K On s
        → Has leaf (child_leaves K f s)
    child-Has low high (child c) t on = has low high c t on
    child-Has low high (rid r) t on = t

    pub select-Has :
        (low high : Option (Key K)) (x : Item K) (rest : List (Item K))
        → Children K P low high x rest
        → OnChild K On (select K key x rest).1
        → Has leaf (all_leaves K f (x ∷ rest))
    select-Has low high x [] t on =
        Has-left leaf (child_leaves K f x.1) [] (child-Has low high x.1 t on)
    select-Has low high x (y ∷ rest) t on =
        by_order (comparing K key y) on (select-Has (some y.0) high y rest t.1)
      where
        by_order :
            (o : Ordering)
            → OnChild K On (select_at K o x (select K key y rest)).1
            → (OnChild K On (select K key y rest).1 → Has leaf (all_leaves K f (y ∷ rest)))
            → Has leaf (all_leaves K f (x ∷ y ∷ rest))
        by_order Ordering.gt on later =
            Has-left leaf (child_leaves K f x.1) (all_leaves K f (y ∷ rest))
              (child-Has low (some y.0) x.1 t.0 on)
        by_order Ordering.eq on later =
            Has-right leaf (child_leaves K f x.1) (all_leaves K f (y ∷ rest)) (later on)
        by_order Ordering.lt on later =
            Has-right leaf (child_leaves K f x.1) (all_leaves K f (y ∷ rest)) (later on)

  module _ (P Q : Option (Key K) → Option (Key K) → ℕ → Type 0) (f : ℕ → List ℕ) (leaf : ℕ)
      (unchanged : (low high : Option (Key K)) (c : ℕ)
        → P low high c
        → Lacks leaf (f c)
        → Q low high c) where
    child-unchanged :
        (low high : Option (Key K)) (slot : Slot)
        → OnChild K (P low high) slot
        → Lacks leaf (child_leaves K f slot)
        → OnChild K (Q low high) slot
    child-unchanged low high (child c) t h = unchanged low high c t h
    child-unchanged low high (rid r) t h = t

    pub Children-unchanged :
        (low high : Option (Key K)) (x : Item K) (rest : List (Item K))
        → Children K P low high x rest
        → Lacks leaf (all_leaves K f (x ∷ rest))
        → Children K Q low high x rest
    Children-unchanged low high x [] t h =
        child-unchanged low high x.1 t (Lacks-left leaf (child_leaves K f x.1) [] h)
    Children-unchanged low high x (y ∷ rest) t h = (
      child-unchanged low (some y.0) x.1 t.0
          (Lacks-left leaf (child_leaves K f x.1) (all_leaves K f (y ∷ rest)) h),
      Children-unchanged (some y.0) high y rest t.1
          (Lacks-right leaf (child_leaves K f x.1) (all_leaves K f (y ∷ rest)) h),
    )

    module _ (On : ℕ → Type 0) (key : Key K) (slot : Slot)
        (has : (low high : Option (Key K)) (c : ℕ) → P low high c → On c → Has leaf (f c))
        (changed : (low high : Option (Key K)) (c : ℕ)
          → P low high c
          → On c
          → IsDistinct (f c)
          → AtLeast K low (key, slot)
          → Under K high (key, slot)
          → Q low high c) where
      child-changed :
          (low high : Option (Key K)) (s : Slot)
          → OnChild K (P low high) s
          → OnChild K On s
          → IsDistinct (child_leaves K f s)
          → AtLeast K low (key, slot)
          → Under K high (key, slot)
          → OnChild K (Q low high) s
      child-changed low high (child c) t on d above below = changed low high c t on d above below
      child-changed low high (rid r) t on d above below = t

      pub Children-changed :
          (low high : Option (Key K)) (x : Item K) (rest : List (Item K))
          → Children K P low high x rest
          → OnChild K On (select K key x rest).1
          → IsDistinct (all_leaves K f (x ∷ rest))
          → AtLeast K low (key, slot)
          → Under K high (key, slot)
          → Children K Q low high x rest
      Children-changed low high x [] t on d above below =
          child-changed low high x.1 t on (IsDistinct-left (child_leaves K f x.1) [] d) above below
      Children-changed low high x (y ∷ rest) t on d above below =
          by_order (comparing K key y) refl on (Children-changed (some y.0) high y rest t.1)
        where
          left : List ℕ
          left = child_leaves K f x.1

          right : List ℕ
          right = all_leaves K f (y ∷ rest)

          further :
              comparing K key y ≢ Ordering.gt
              → OnChild K On (select K key y rest).1
              → (OnChild K On (select K key y rest).1
                  → IsDistinct right
                  → AtLeast K (some y.0) (key, slot)
                  → Under K high (key, slot)
                  → Children K Q (some y.0) high y rest)
              → Children K Q low high x (y ∷ rest)
          further le on later = (
            child-unchanged low (some y.0) x.1 t.0 (
                others-left leaf left right d
                  (select-Has P f leaf On key has (some y.0) high y rest t.1 on)),
            later on (IsDistinct-right left right d) le below,
          )

          by_order :
              (o : Ordering)
              → comparing K key y ≡ o
              → OnChild K On (select_at K o x (select K key y rest)).1
              → (OnChild K On (select K key y rest).1
                  → IsDistinct right
                  → AtLeast K (some y.0) (key, slot)
                  → Under K high (key, slot)
                  → Children K Q (some y.0) high y rest)
              → Children K Q low high x (y ∷ rest)
          by_order Ordering.gt k on later = (
            child-changed low (some y.0) x.1 t.0 on (IsDistinct-left left right d) above
                (compare-gt y.0 key k),
            Children-unchanged (some y.0) high y rest t.1 (
                others-right leaf left right d
                  (child-Has P f leaf On key has low (some y.0) x.1 t.0 on)),
          )
          by_order Ordering.eq k on later = further (λ over. ground (arith, k, over)) on later
          by_order Ordering.lt k on later = further (λ over. ground (arith, k, over)) on later
