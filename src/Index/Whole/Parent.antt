-- ===== src/Index/Whole/Parent.antt =====
-- What holds at a node whose child was split, before the node takes the new page.
use miniob4cqu_db_exp.Common.{
  ℕ, zero, suc, ◌+◌, ◌≤◌, ◌≡◌, ◌≢◌, ap, ◌∙◌, Bool, true, false, Option, some, List, [], ◌∷◌, ◌++◌,
  All, take, drop, arith,
}
use miniob4cqu_db_exp.Index.Page.{IndexKeys, Key, Item, Node, Page, node, rid, child, Rid, Index}
use miniob4cqu_db_exp.Index.LeafOrder.{IsSorted, position, All-insert}
use miniob4cqu_db_exp.Index.LeafInsert.{inserted, inserted-IsSorted}
use miniob4cqu_db_exp.Index.Shape.{Under, OnChild}
use miniob4cqu_db_exp.Index.Parents.{HasView}
use miniob4cqu_db_exp.Index.NodeHalves.{roots-inserted}
use miniob4cqu_db_exp.Index.ParentStep.{parent_in-node}
use miniob4cqu_db_exp.Index.Tree.{Sizes}
use miniob4cqu_db_exp.Index.Whole.{
  one, occurs, view, parent_in, root_of, roots, Over, Kids, Names, Tree,
}
use miniob4cqu_db_exp.Index.Whole.Frame.{one_self, Kids-roots}
use miniob4cqu_db_exp.Index.Whole.Forget.{view-node}
use miniob4cqu_db_exp.Index.Whole.Change.{Change}
use miniob4cqu_db_exp.Index.Whole.Result.{Distinct, Grown}

module _ (K : IndexKeys) where
  All-uninserted :
      (P : Item K → Type 0) (i : ℕ) (z : Item K) (items : List (Item K))
      → All P (take i items ++ z ∷ drop i items)
      → P z × All P items
  All-uninserted P zero z items h = h
  All-uninserted P (suc i) z [] h = h
  All-uninserted P (suc i) z (x ∷ items) h =
      let (at, others) = All-uninserted P i z items h.1 in (at, (h.0, others))

  pub Tree-view :
      (pages : ℕ → Page K) (height : ℕ) (low high : Option (Key K)) (p : ℕ) (own : ℕ → ℕ)
      (items : List (Item K))
      → Tree K pages height low high p own items
      → (b : Bool) × (l : List (Item K)) × (view K (pages p) ≡ some (b, l))
  Tree-view pages zero low high p own items t = (true, items, t.0)
  Tree-view pages (suc height) low high p own items t = (false, t.0 ∷ t.1, t.3)

  slot-HasView :
      (pages : ℕ → Page K) (height : ℕ) (low high : Option (Key K)) (x : Item K) (own : ℕ → ℕ)
      (items : List (Item K))
      → OnChild K (λ c. Tree K pages height low high c own items) x.1
      → HasView K pages x
  slot-HasView pages height low high (k, child c) own items t =
      Tree-view pages height low high c own items t
  slot-HasView pages height low high (k, rid r) own items t = elim t [ ]

  Kids-HasView :
      (pages : ℕ → Page K) (height : ℕ) (low high : Option (Key K)) (x : Item K)
      (rest : List (Item K)) (own : ℕ → ℕ) (items : List (Item K))
      → Kids K (Tree K pages height) low high x rest own items
      → All (HasView K pages) (x ∷ rest)
  Kids-HasView pages height low high x [] own items t =
      (slot-HasView pages height low high x own items t, tt)
  Kids-HasView pages height low high x (y ∷ rest) own items t = (
    slot-HasView pages height low (some y.0) x t.0 t.2 t.6,
    Kids-HasView pages height (some y.0) high y rest t.1 t.3 t.7,
  )

-- The node in `q`, with the children `x` and `rest`, and the new page beside one of them.
pub record Ready (K : IndexKeys) (height q new : ℕ) (m : Key K) (s s1 : Index K)
    (low high : Option (Key K)) (x : Item K) (rest : List (Item K)) (own kids' : ℕ → ℕ)
    : Type 0 where
  pub n : Node K
  pub at_q : s1.pages q ≡ node n
  pub inner : n.is_leaf ≡ false
  pub is : n.items ≡ x ∷ rest
  pub q_same : s1.pages q ≡ s.pages q
  pub kids_q : kids' q ≡ 0
  pub nn : Node K
  pub at_new : s1.pages new ≡ node nn
  pub named : parent_in K (s1.pages new) ≡ some q
  pub new_q : new ≢ q
  pub rooted : (a : ℕ) → root_of K x.1 a + (one new a + roots K rest a) ≤ kids' a
  pub have : All (HasView K s1.pages) (x ∷ rest)
  pub sorted : IsSorted K (inserted K m (child new) rest)
  pub over : All (Over K low) (inserted K m (child new) rest)
  pub under : All (Under K high) (inserted K m (child new) rest)
  pub counts : (a : ℕ) → one q a + kids' a + occurs a s1.free ≡ own a + occurs a s.free

module _ (K : IndexKeys) (sizes : Sizes) (key : Key K) (r : Rid) (height q new : ℕ) (m : Key K)
    (s s1 : Index K) (low high : Option (Key K)) (x : Item K) (rest : List (Item K))
    (own kids kids' : ℕ → ℕ) (items items' : List (Item K))
    (at : view K (s.pages q) ≡ some (false, x ∷ rest)) (sorted : IsSorted K rest)
    (over : All (Over K low) rest) (under : All (Under K high) rest)
    (owns : (a : ℕ) → own a ≡ one q a + kids a) (distinct : Distinct K sizes own s)
    (change : Change K key r (suc height) s s1 kids kids' items items')
    (g : Grown K sizes height low high x rest q new m s1 kids' items') where
  abbrev rest' : List (Item K)
  rest' = inserted K m (child new) rest

  q_apart : kids q + occurs q s.free ≡ 0
  q_apart = omega (arith, owns q, one_self q, distinct q)

  kids_q : kids' q ≡ 0
  kids_q = omega (arith, change.counted q, q_apart)

  q_same : s1.pages q ≡ s.pages q
  q_same = change.other q q_apart

  rooted : (a : ℕ) → root_of K x.1 a + (one new a + roots K rest a) ≤ kids' a
  rooted a = omega (
    arith,
    Kids-roots K s1.pages height low high x rest' kids' items' g.kids a,
    roots-inserted K m new rest a,
  )

  new_q : new ≢ q
  new_q same = absurd (omega (arith, rooted q, ap (λ b. one b q) same, one_self q, kids_q))

  q_node : (n : Node K) × (s1.pages q ≡ node n) × (n.is_leaf ≡ false) × (n.items ≡ x ∷ rest)
  q_node = view-node K (s1.pages q) false (x ∷ rest) (ap (view K) q_same ∙ at)

  named : parent_in K (s1.pages new) ≡ some q
  named =
      (All-uninserted K (Names K s1.pages q) (position K m rest) (m, child new) rest g.names.1).0

  new_node : (nn : Node K) × (s1.pages new ≡ node nn) × (nn.parent ≡ some q)
  new_node = parent_in-node K (s1.pages new) q named

  have : All (HasView K s1.pages) (x ∷ rest)
  have =
      let all = Kids-HasView K s1.pages height low high x rest' kids' items' g.kids in
      (
        all.0,
        (All-uninserted K (HasView K s1.pages) (position K m rest) (m, child new) rest all.1).1,
      )

  sorted' : IsSorted K rest'
  sorted' = inserted-IsSorted K m (child new) rest sorted g.absent

  over' : All (Over K low) rest'
  over' = All-insert K (Over K low) (position K m rest) (m, child new) rest g.over over

  under' : All (Under K high) rest'
  under' = All-insert K (Under K high) (position K m rest) (m, child new) rest g.under under

  counts : (a : ℕ) → one q a + kids' a + occurs a s1.free ≡ own a + occurs a s.free
  counts a = omega (arith, change.counted a, owns a)

  pub ready : Ready K height q new m s s1 low high x rest own kids'
  ready =
      let (n, at_q, inner, is) = q_node in
      let (nn, at_new, named_new) = new_node in
      record {
        n = n;
        at_q = at_q;
        inner = inner;
        is = is;
        q_same = q_same;
        kids_q = kids_q;
        nn = nn;
        at_new = at_new;
        named = named;
        new_q = new_q;
        rooted = rooted;
        have = have;
        sorted = sorted';
        over = over';
        under = under';
        counts = counts;
      }
