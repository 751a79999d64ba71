-- ===== src/Index/Whole/Descend.antt =====
-- An insertion into the first child of a node, if the key selects it, as one into its children.
use Prim.Native.Nat.{Ordering}
use mathlib.Core.List.{append_assoc}
use miniob4cqu_db_exp.Common.{
  ℕ, suc, ◌+◌, ◌≤◌, ◌≡◌, refl, sym, ap, ◌∙◌, subst, Option, some, List, ◌∷◌, ◌++◌, inl, inr, All,
  arith,
}
use miniob4cqu_db_exp.Common.Step.{Outcome}
use miniob4cqu_db_exp.Index.Page.{IndexKeys, Key, Item, child, Rid, Index}
use miniob4cqu_db_exp.Index.LeafOrder.{IsSorted, slot_of, comparing, Before, at_order, found-order}
use miniob4cqu_db_exp.Index.LeafInsert.{inserted-gt}
use miniob4cqu_db_exp.Index.Shape.{AtLeast, Under, All-map, Under-trans, Before-AtLeast}
use miniob4cqu_db_exp.Index.Select.{Apart, slot_of-append_left}
use miniob4cqu_db_exp.Index.Tree.{Sizes}
use miniob4cqu_db_exp.Index.Whole.{parent_in, roots, Over, Kids, Names, Tree, occurs}
use miniob4cqu_db_exp.Index.Whole.Frame.{Kids-roots}
use miniob4cqu_db_exp.Index.Whole.Forget.{Kids-AtLeast}
use miniob4cqu_db_exp.Index.Whole.Change.{Change, Change-left}
use miniob4cqu_db_exp.Index.Whole.Result.{Distinct, Pair, Grown, TreeResult, KidsResult}
use miniob4cqu_db_exp.Index.Whole.Siblings.{same-Kids, same-Names, above_all}

module _ (K : IndexKeys) (sizes : Sizes) (key : Key K) (r : Rid) (fuel height : ℕ) (q : ℕ)
    (s : Index K) where
  open K.order use {compare_keys, compare-self, compare-eq, compare-gt, compare-lt, compare-trans}

  -- A node with at least two children.
  module _ (low high : Option (Key K)) (y : Item K) (rest : List (Item K)) (c : ℕ)
      (own first later : ℕ → ℕ) (items left right : List (Item K))
      (owns : (a : ℕ) → own a ≡ first a + later a) (is : items ≡ left ++ right)
      (distinct : Distinct K sizes own s) (sorted : IsSorted K (y ∷ rest))
      (over : All (Over K low) (y ∷ rest)) (under : All (Under K high) (y ∷ rest))
      (ks : Kids K (Tree K s.pages height) (some y.0) high y rest later right)
      (o : Outcome (Index K) (Unit {0})) where
    later_roots : (a : ℕ) → roots K (y ∷ rest) a ≤ later a
    later_roots a = Kids-roots K s.pages height (some y.0) high y rest later right ks a

    right_above : comparing K key y ≡ Ordering.gt → All (λ z. comparing K key z ≡ Ordering.gt) right
    right_above k = above_all K sizes key r fuel height q s y right k (
        Kids-AtLeast K s.pages height (some y.0) high y rest later right
          (All-map K (Before K y) (AtLeast K (some y.0)) rest (λ z. Before-AtLeast K y z) sorted.0)
          ks)

    apart_first : (a : ℕ) → first a + later a + occurs a s.free ≤ 1
    apart_first a = omega (arith, owns a, distinct a)

    slot_of-left : comparing K key y ≡ Ordering.gt → slot_of K key items ≡ slot_of K key left
    slot_of-left gt =
        ap (slot_of K key) is
        ∙ slot_of-append_left K key left right (
            All-map K (λ z. comparing K key z ≡ Ordering.gt) (Apart K key) right
              (λ z h h'. absurd (ground (arith, h, h'))) (right_above gt))

    -- The first child was cut; both parts are among the children.
    first-Grown :
        (k : Key K)
        → parent_in K (s.pages c) ≡ some q
        → All (Names K s.pages q) (y ∷ rest)
        → (s' : Index K) (own' : ℕ → ℕ) (items' : List (Item K)) (new : ℕ) (m : Key K)
        → Change K key r (suc height) s s' first own' left items'
        → Pair K sizes height low (some y.0) c new m s s' own' items'
        → Grown K sizes height low high
            (k, child c)
            (y ∷ rest)
            q
            new
            m
            s'
            (λ a. own' a + later a)
            (items' ++ right)
    unfolding at_order
    first-Grown k name names s' own' items' new m change pair =
        let above_m = compare-lt m y.0 pair.under in
        let listed = sym (inserted-gt K m (child new) y rest above_m) in
        record {
          kids =
              subst
                (λ l.
                  Kids K (Tree K s'.pages height) low high (k, child c) l (λ a. own' a + later a)
                    (items' ++ right))
                listed
                (
                  pair.first,
                  λ a. pair.later a + later a,
                  pair.left,
                  pair.right ++ right,
                  λ a. omega (arith, pair.owns a),
                  ap (λ l. l ++ right) pair.is ∙ append_assoc pair.left pair.right right,
                  pair.lower,
                  (
                    pair.later,
                    later,
                    pair.right,
                    right,
                    λ a. refl,
                    refl,
                    pair.upper,
                    same-Kids K sizes key r fuel height q s s' first later own' left items'
                        apart_first change (some y.0) high y rest right ks,
                  ),
                );
          absent = found-order K m y rest Ordering.gt above_m;
          over = pair.over;
          under = Under-trans K high (m, child new) y under.0 pair.under;
          names = (
            pair.named ∙ name,
            subst (All (Names K s'.pages q)) listed (
              pair.named_new ∙ name,
              same-Names K sizes key r fuel height q s s' first later own' left items' apart_first
                  change (y ∷ rest) later_roots names,
            ),
          );
        }

    pub at_first :
        (k : Key K)
        → comparing K key y ≡ Ordering.gt
        → parent_in K (s.pages c) ≡ some q
        → All (Names K s.pages q) (y ∷ rest)
        → TreeResult K sizes key r fuel height low (some y.0) c s first left o
        → KidsResult K sizes key r fuel height low high (k, child c) (y ∷ rest) q c s own items o
    unfolding at_order
    at_first k gt name names (inl (slot, has, fails)) = inl (slot, slot_of-left gt ∙ has, fails)
    at_first k gt name names (inr (absent, inl (s', own', items', change, runs, (t, named)))) =
        inr (
          slot_of-left gt ∙ absent,
          inl (
            s',
            λ a. own' a + later a,
            items' ++ right,
            Change-left K key r (suc height) s s' own first later own' items left right items' owns
                is (right_above gt) change,
            runs,
            (
              (
                own',
                later,
                items',
                right,
                λ a. refl,
                refl,
                t,
                same-Kids K sizes key r fuel height q s s' first later own' left items' apart_first
                    change (some y.0) high y rest right ks,
              ),
              (
                named ∙ name,
                same-Names K sizes key r fuel height q s s' first later own' left items' apart_first
                    change (y ∷ rest) later_roots names,
              ),
            ),
          ),
        )
    at_first k gt name names (inr (absent, inr (s', own', items', new, m, change, (runs, pair)))) =
        inr (
          slot_of-left gt ∙ absent,
          inr (
            s',
            λ a. own' a + later a,
            items' ++ right,
            new,
            m,
            Change-left K key r (suc height) s s' own first later own' items left right items' owns
                is (right_above gt) change,
            (runs, pair.named ∙ name, first-Grown k name names s' own' items' new m change pair),
          ),
        )
