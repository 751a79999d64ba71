-- ===== src/Index/Whole/Siblings.antt =====
-- The parts of a tree that an insertion leaves alone, and an insertion into the only child.
use Prim.Native.Nat.{Ordering}
use miniob4cqu_db_exp.Common.{
  ℕ, suc, ◌+◌, ◌≤◌, ◌≡◌, refl, ap, ◌∙◌, Option, none, some, List, [], inl, inr, All, arith,
}
use miniob4cqu_db_exp.Common.Step.{Outcome}
use miniob4cqu_db_exp.Index.Page.{IndexKeys, Key, Item, Slot, rid, child, Rid, Index}
use miniob4cqu_db_exp.Index.LeafOrder.{comparing}
use miniob4cqu_db_exp.Index.Shape.{AtLeast, Under, OnChild, All-map}
use miniob4cqu_db_exp.Index.SortedParts.{Before-bound}
use miniob4cqu_db_exp.Index.Tree.{Sizes}
use miniob4cqu_db_exp.Index.Whole.{view, parent_in, roots, Over, Kids, Names, Tree, occurs}
use miniob4cqu_db_exp.Index.Whole.Frame.{Names-frame, Kids-frame, child-frame}
use miniob4cqu_db_exp.Index.Whole.Forget.{Tree-Under}
use miniob4cqu_db_exp.Index.Whole.Change.{Change}
use miniob4cqu_db_exp.Index.Whole.Result.{Grown, TreeResult, KidsResult}

module _ (K : IndexKeys) (sizes : Sizes) (key : Key K) (r : Rid) (fuel height : ℕ) (q : ℕ)
    (s : Index K) where
  open K.order use {compare_keys, compare-self, compare-eq, compare-gt, compare-lt, compare-trans}

  pub slot-Under :
      (low high : Option (Key K)) (slot : Slot) (own : ℕ → ℕ) (items : List (Item K))
      → OnChild K (λ c. Tree K s.pages height low high c own items) slot
      → All (Under K high) items
  slot-Under low high (child c) own items t = Tree-Under K s.pages height low high c own items t
  slot-Under low high (rid x) own items t = elim t [ ]

  pub at_last :
      (low high : Option (Key K)) (k : Key K) (c : ℕ) (own : ℕ → ℕ) (items : List (Item K))
      (o : Outcome (Index K) (Unit {0}))
      → parent_in K (s.pages c) ≡ some q
      → TreeResult K sizes key r fuel height low high c s own items o
      → KidsResult K sizes key r fuel height low high (k, child c) [] q c s own items o
  at_last low high k c own items o name (inl dup) = inl dup
  at_last low high k c own items o name
        (inr (absent, inl (s', own', items', change, runs, (t, named)))) =
      inr (absent, inl (s', own', items', change, runs, (t, (named ∙ name, tt))))
  at_last low high k c own items o name
        (inr (absent, inr (s', own', items', new, m, change, (runs, pair)))) =
      let grown : Grown K sizes height low high (k, child c) [] q new m s' own' items' = record {
        kids = (
          pair.first, pair.later, pair.left, pair.right, pair.owns, pair.is, pair.lower, pair.upper,
        );
        absent = refl;
        over = pair.over;
        under = pair.under;
        names = (pair.named ∙ name, (pair.named_new ∙ name, tt));
      } in
      inr (absent, inr (s', own', items', new, m, change, (runs, pair.named ∙ name, grown)))

  -- The pages of a part stay where another part takes the record.
  module _ (s' : Index K) (taking staying own' : ℕ → ℕ) (items items' : List (Item K))
      (distinct : (a : ℕ) → taking a + staying a + occurs a s.free ≤ 1)
      (change : Change K key r (suc height) s s' taking own' items items') where
    same : (a : ℕ) → 1 ≤ staying a → s'.pages a ≡ s.pages a
    same a h = change.other a (omega (arith, distinct a))

    pub same-Kids :
        (low high : Option (Key K)) (x : Item K) (rest : List (Item K)) (its : List (Item K))
        → Kids K (Tree K s.pages height) low high x rest staying its
        → Kids K (Tree K s'.pages height) low high x rest staying its
    same-Kids low high x rest its =
        Kids-frame K s.pages s'.pages height low high x rest staying its
          (λ a. omega (arith, distinct a)) (λ a h. ap (view K) (same a h))
          (λ a h k. ap (parent_in K) (same a h))

    pub same_child :
        (low high : Option (Key K)) (slot : Slot) (its : List (Item K))
        → OnChild K (λ c. Tree K s.pages height low high c staying its) slot
        → OnChild K (λ c. Tree K s'.pages height low high c staying its) slot
    same_child low high slot its =
        child-frame K s.pages s'.pages height low high slot staying its
          (λ a. omega (arith, distinct a)) (λ a h. ap (view K) (same a h))
          (λ a h k. ap (parent_in K) (same a h))

    pub same-Names :
        (items : List (Item K))
        → ((a : ℕ) → roots K items a ≤ staying a)
        → All (Names K s.pages q) items
        → All (Names K s'.pages q) items
    same-Names items in_staying =
        Names-frame K s.pages s'.pages q items
          (λ a h. ap (parent_in K) (same a (omega (arith, in_staying a))))

  pub above_all :
      (y : Item K) (its : List (Item K))
      → comparing K key y ≡ Ordering.gt
      → All (AtLeast K (some y.0)) its
      → All (λ z. comparing K key z ≡ Ordering.gt) its
  above_all y its k =
      All-map K (AtLeast K (some y.0)) (λ z. comparing K key z ≡ Ordering.gt) its
        (λ z h. compare-lt key z.0 (Before-bound K y (key, rid r) z (compare-gt y.0 key k) h))

  pub below_all :
      (y : Item K) (its : List (Item K))
      → AtLeast K (some y.0) (key, rid r)
      → All (Under K (some y.0)) its
      → All (λ z. comparing K key z ≡ Ordering.lt) its
  below_all y its k =
      All-map K (Under K (some y.0)) (λ z. comparing K key z ≡ Ordering.lt) its
        (λ z h. Before-bound K y z (key, rid r) h k)

  pub Over-trans :
      (low : Option (Key K)) (y z : Item K) → Over K low y → Over K (some y.0) z → Over K low z
  Over-trans none y z h k = tt
  Over-trans (some low) y z h k = compare-trans low y.0 z.0 h k
