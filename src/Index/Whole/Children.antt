-- ===== src/Index/Whole/Children.antt =====
-- An insertion below a node, from what it does in each child.
use Prim.Native.Nat.{Ordering}
use miniob4cqu_db_exp.Common.{
  ℕ, ◌+◌, ◌≡◌, refl, sym, ap, ◌∙◌, subst, Option, some, List, [], ◌∷◌, ◌++◌, All, arith,
}
use miniob4cqu_db_exp.Common.Step.{Outcome}
use miniob4cqu_db_exp.Index.Page.{IndexKeys, Key, Item, Slot, rid, child, Rid, Index}
use miniob4cqu_db_exp.Index.LeafOrder.{IsSorted, comparing}
use miniob4cqu_db_exp.Index.Shape.{AtLeast, Under, OnChild}
use miniob4cqu_db_exp.Index.Select.{select, select_at}
use miniob4cqu_db_exp.Index.Tree.{Sizes}
use miniob4cqu_db_exp.Index.Whole.{Over, Kids, Names, Tree}
use miniob4cqu_db_exp.Index.Whole.Result.{Distinct, TreeResult, KidsResult}
use miniob4cqu_db_exp.Index.Whole.Descend.{at_first}
use miniob4cqu_db_exp.Index.Whole.DescendLater.{at_later}
use miniob4cqu_db_exp.Index.Whole.Siblings.{at_last}

module _ (K : IndexKeys) (sizes : Sizes) (key : Key K) (r : Rid) (fuel height : ℕ) (q : ℕ)
    (s : Index K) (run : ℕ → Outcome (Index K) (Unit {0})) where
  -- Insertion into any tree of the height, by the run that starts in its page.
  abbrev pub Inserts : Type 0
  Inserts =
      (low high : Option (Key K)) (c : ℕ) (own : ℕ → ℕ) (items : List (Item K))
      → Tree K s.pages height low high c own items
      → AtLeast K low (key, rid r)
      → Under K high (key, rid r)
      → Distinct K sizes own s
      → TreeResult K sizes key r fuel height low high c s own items (run c)

  to_last :
      Inserts
      → (low high : Option (Key K)) (k : Key K) (slot : Slot) (c : ℕ) (own : ℕ → ℕ)
        (items : List (Item K))
      → slot ≡ child c
      → OnChild K (λ c. Tree K s.pages height low high c own items) slot
      → Names K s.pages q (k, slot)
      → AtLeast K low (key, rid r)
      → Under K high (key, rid r)
      → Distinct K sizes own s
      → KidsResult K sizes key r fuel height low high (k, slot) [] q c s own items (run c)
  to_last ih low high k (rid i) c own items is t name above below distinct = elim t [ ]
  to_last ih low high k (child c') c own items is t name above below distinct =
      subst
        (λ c.
          KidsResult K sizes key r fuel height low high (k, child c') [] q c s own items (run c))
        {x = c'} {y = c} (cc)
        (at_last K sizes key r fuel height q s low high k c' own items (run c') name
          (ih low high c' own items t above below distinct))

  module _ (ih : Inserts) where
    to_first :
        (low high : Option (Key K)) (k : Key K) (slot : Slot) (y : Item K) (rest : List (Item K))
        (c : ℕ) (own first later : ℕ → ℕ) (items left right : List (Item K))
        → ((a : ℕ) → own a ≡ first a + later a)
        → items ≡ left ++ right
        → Distinct K sizes own s
        → IsSorted K (y ∷ rest)
        → All (Over K low) (y ∷ rest)
        → All (Under K high) (y ∷ rest)
        → Kids K (Tree K s.pages height) (some y.0) high y rest later right
        → slot ≡ child c
        → OnChild K (λ c. Tree K s.pages height low (some y.0) c first left) slot
        → All (Names K s.pages q) ((k, slot) ∷ y ∷ rest)
        → AtLeast K low (key, rid r)
        → comparing K key y ≡ Ordering.gt
        → KidsResult K sizes key r fuel height low high (k, slot) (y ∷ rest) q c s own items (run c)
    to_first low high k (rid i) y rest c own first later items left right owns is distinct sorted
          over under ks at t names above gt =
        elim t [ ]
    to_first low high k (child c') y rest c own first later items left right owns is distinct sorted
          over under ks at t names above gt =
        subst
          (λ c.
            KidsResult K sizes key r fuel height low high (k, child c') (y ∷ rest) q c s own items
              (run c))
          {x = c'} {y = c} (cc)
          (at_first K sizes key r fuel height q s low high y rest c' own first later items left
            right owns is distinct sorted over under ks (run c') k gt names.0 names.1
            (ih low (some y.0) c' first left t above (K.order.compare-gt y.0 key gt)
              (λ a. omega (arith, owns a, distinct a))))

    pub Kids-result :
        (low high : Option (Key K)) (x : Item K) (rest : List (Item K)) (c : ℕ) (own : ℕ → ℕ)
        (items : List (Item K))
        → Kids K (Tree K s.pages height) low high x rest own items
        → AtLeast K low (key, rid r)
        → Under K high (key, rid r)
        → IsSorted K rest
        → All (Over K low) rest
        → All (Under K high) rest
        → All (Names K s.pages q) (x ∷ rest)
        → Distinct K sizes own s
        → (select K key x rest).1 ≡ child c
        → KidsResult K sizes key r fuel height low high x rest q c s own items (run c)
    Kids-result low high x [] c own items t above below sorted over under names distinct at =
        to_last ih low high x.0 x.1 c own items at t names.0 above below distinct
    Kids-result low high x (y ∷ rest) c own items (first, later, left, right, owns, is, t, ks) above
          below sorted over under names distinct at =
        by_order (comparing K key y) refl (λ y_above at'.
          Kids-result (some y.0) high y rest c later right ks y_above below sorted.1 sorted.0
            under.1 names.1 (λ a. omega (arith, owns a, distinct a)) at')
      where
        Goal : Type 0
        Goal = KidsResult K sizes key r fuel height low high x (y ∷ rest) q c s own items (run c)

        to_later :
            AtLeast K (some y.0) (key, rid r)
            → KidsResult K sizes key r fuel height (some y.0) high y rest q c s later right (run c)
            → Goal
        to_later y_above =
            at_later K sizes key r fuel height q s low high x y rest c own first later items left
              right owns is distinct over.0 t names.0 y_above (run c)

        at_for :
            (o : Ordering)
            → comparing K key y ≡ o
            → (select_at K o x (select K key y rest)).1 ≡ child c
        at_for o k = ap (λ o. (select_at K o x (select K key y rest)).1) (sym k) ∙ at

        by_order :
            (o : Ordering)
            → comparing K key y ≡ o
            → (AtLeast K (some y.0) (key, rid r)
                → (select K key y rest).1 ≡ child c
                → KidsResult K sizes key r fuel height
                    (some y.0)
                    high
                    y
                    rest
                    q
                    c
                    s
                    later
                    right
                    (run c))
            → Goal
        by_order Ordering.lt k later_result =
            let y_above : AtLeast K (some y.0) (key, rid r) = λ h. absurd (ground (arith, h, k)) in
            to_later y_above (later_result y_above (at_for Ordering.lt k))
        by_order Ordering.eq k later_result =
            let y_above : AtLeast K (some y.0) (key, rid r) = λ h. absurd (ground (arith, h, k)) in
            to_later y_above (later_result y_above (at_for Ordering.eq k))
        by_order Ordering.gt k later_result =
            to_first low high x.0 x.1 y rest c own first later items left right owns is distinct
              sorted over under ks (at_for Ordering.gt k) t names above k
