-- ===== src/Index/Whole/DescendLater.antt =====
-- An insertion into a later child of a node than the first, as one into its children.
use Prim.Native.Nat.{Ordering}
use miniob4cqu_db_exp.Common.{
  ℕ, suc, ◌+◌, ◌≤◌, ◌≡◌, refl, sym, ap, ◌∙◌, subst, Option, some, List, [], ◌∷◌, ◌++◌, inl, inr,
  All, arith,
}
use miniob4cqu_db_exp.Common.Step.{Outcome}
use miniob4cqu_db_exp.Index.Page.{IndexKeys, Key, Item, rid, child, Rid, Index}
use miniob4cqu_db_exp.Index.LeafOrder.{slot_of, comparing, at_order, found-order}
use miniob4cqu_db_exp.Index.LeafInsert.{inserted-lt}
use miniob4cqu_db_exp.Index.Shape.{AtLeast, OnChild, All-map}
use miniob4cqu_db_exp.Index.Select.{Apart, slot_of-append_right}
use miniob4cqu_db_exp.Index.Tree.{Sizes}
use miniob4cqu_db_exp.Index.Whole.{roots, Over, Kids, Names, Tree, occurs}
use miniob4cqu_db_exp.Index.Whole.Frame.{slot-own}
use miniob4cqu_db_exp.Index.Whole.Change.{Change, Change-right}
use miniob4cqu_db_exp.Index.Whole.Result.{Distinct, Grown, KidsResult}
use miniob4cqu_db_exp.Index.Whole.Siblings.{
  same_child, same-Names, below_all, Over-trans, slot-Under,
}

module _ (K : IndexKeys) (sizes : Sizes) (key : Key K) (r : Rid) (fuel height : ℕ) (q : ℕ)
    (s : Index K) where
  module _ (low high : Option (Key K)) (x y : Item K) (rest : List (Item K)) (c : ℕ)
      (own first later : ℕ → ℕ) (items left right : List (Item K))
      (owns : (a : ℕ) → own a ≡ first a + later a) (is : items ≡ left ++ right)
      (distinct : Distinct K sizes own s) (over : Over K low y)
      (kid : OnChild K (λ c. Tree K s.pages height low (some y.0) c first left) x.1)
      (name : Names K s.pages q x) (key_at : AtLeast K (some y.0) (key, rid r)) where
    left_below : All (λ z. comparing K key z ≡ Ordering.lt) left
    left_below =
        below_all K sizes key r fuel height q s y left key_at
          (slot-Under K sizes key r fuel height q s low (some y.0) x.1 first left kid)

    slot_of-right : slot_of K key items ≡ slot_of K key right
    slot_of-right =
        ap (slot_of K key) is
        ∙ slot_of-append_right K key left right (
            All-map K (λ z. comparing K key z ≡ Ordering.lt) (Apart K key) left
              (λ z h h'. absurd (ground (arith, h, h'))) left_below)

    first_root : (a : ℕ) → roots K (x ∷ []) a ≤ first a
    first_root a = omega (arith, slot-own K s.pages height low (some y.0) x.1 first left kid a)

    apart_later : (a : ℕ) → later a + first a + occurs a s.free ≤ 1
    apart_later a = omega (arith, owns a, distinct a)

    here_still :
        (s' : Index K) (own' : ℕ → ℕ) (items' : List (Item K))
        → Change K key r (suc height) s s' later own' right items'
        → OnChild K (λ c. Tree K s'.pages height low (some y.0) c first left) x.1
    here_still s' own' items' change =
        same_child K sizes key r fuel height q s s' later first own' right items' apart_later change
          low (some y.0) x.1 left kid

    name_still :
        (s' : Index K) (own' : ℕ → ℕ) (items' : List (Item K))
        → Change K key r (suc height) s s' later own' right items'
        → Names K s'.pages q x
    name_still s' own' items' change =
        (same-Names K sizes key r fuel height q s s' later first own' right items' apart_later
          change (x ∷ []) first_root (name, tt)).0

    -- A later child was cut; both parts are among the children.
    later-Grown :
        (s' : Index K) (own' : ℕ → ℕ) (items' : List (Item K)) (new : ℕ) (m : Key K)
        → Change K key r (suc height) s s' later own' right items'
        → Grown K sizes height (some y.0) high y rest q new m s' own' items'
        → Grown K sizes height low high x
            (y ∷ rest)
            q
            new
            m
            s'
            (λ a. first a + own' a)
            (left ++ items')
    unfolding at_order
    later-Grown s' own' items' new m change part =
        let listed = sym (inserted-lt K m (child new) y rest part.over) in
        record {
          kids =
              subst
                (λ l.
                  Kids K (Tree K s'.pages height) low high x l (λ a. first a + own' a)
                    (left ++ items'))
                listed
                (
                  first,
                  own',
                  left,
                  items',
                  λ a. refl,
                  refl,
                  here_still s' own' items' change,
                  part.kids,
                );
          absent = found-order K m y rest Ordering.lt part.over ∙ part.absent;
          over = Over-trans K sizes key r fuel height q s low y (m, child new) over part.over;
          under = part.under;
          names = (
            name_still s' own' items' change,
            subst (All (Names K s'.pages q)) listed part.names,
          );
        }

    pub at_later :
        (o : Outcome (Index K) (Unit {0}))
        → KidsResult K sizes key r fuel height (some y.0) high y rest q c s later right o
        → KidsResult K sizes key r fuel height low high x (y ∷ rest) q c s own items o
    unfolding at_order
    at_later o (inl (slot, has, fails)) = inl (slot, slot_of-right ∙ has, fails)
    at_later o (inr (absent, inl (s', own', items', change, runs, (kids, names)))) = inr (
      slot_of-right ∙ absent,
      inl (
        s',
        λ a. first a + own' a,
        left ++ items',
        Change-right K key r (suc height) s s' own first later own' items left right items' owns is
            left_below change,
        runs,
        (
          (first, own', left, items', λ a. refl, refl, here_still s' own' items' change, kids),
          (name_still s' own' items' change, names),
        ),
      ),
    )
    at_later o (inr (absent, inr (s', own', items', new, m, change, (runs, above, part)))) = inr (
      slot_of-right ∙ absent,
      inr (
        s',
        λ a. first a + own' a,
        left ++ items',
        new,
        m,
        Change-right K key r (suc height) s s' own first later own' items left right items' owns is
            left_below change,
        (runs, above, later-Grown s' own' items' new m change part),
      ),
    )
