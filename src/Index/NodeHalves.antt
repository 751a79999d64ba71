-- ===== src/Index/NodeHalves.antt =====
-- The two halves of an internal node, one of which has taken a page.
use miniob4cqu_db_exp.Common.{
  ℕ, zero, suc, ◌+◌, ◌≤◌, ◌≡◌, ◌≢◌, false, some, List, [], ◌∷◌, ◌++◌, take, drop, ◌==◌, arith,
}
use miniob4cqu_db_exp.Index.Page.{IndexKeys, Key, Item, Node, node, child, Index}
use miniob4cqu_db_exp.Index.Node.{with_items, with_parent, empty_node}
use miniob4cqu_db_exp.Index.LeafOrder.{position}
use miniob4cqu_db_exp.Index.LeafInsert.{inserted}
use miniob4cqu_db_exp.Index.Whole.{one, view, parent_in, roots}

pub positive : (n : ℕ) → (n == 0) ≡ false → 1 ≤ n
positive n h = ground arith

module _ (K : IndexKeys) where
  pub roots-append :
      (xs ys : List (Item K)) (a : ℕ) → roots K (xs ++ ys) a ≡ roots K xs a + roots K ys a
  roots-append [] ys a = omega arith
  roots-append (x ∷ xs) ys a = omega (arith, roots-append xs ys a)

  roots-parts :
      (i : ℕ) (items : List (Item K)) (a : ℕ)
      → roots K (take i items) a + roots K (drop i items) a ≡ roots K items a
  roots-parts zero items a = omega arith
  roots-parts (suc i) [] a = omega arith
  roots-parts (suc i) (x ∷ items) a = omega (arith, roots-parts i items a)

  pub roots-inserted :
      (m : Key K) (p : ℕ) (items : List (Item K)) (a : ℕ)
      → roots K (inserted K m (child p) items) a ≡ one p a + roots K items a
  roots-inserted m p items a =
      let i = position K m items in
      omega
        (arith, roots-append (take i items) ((m, child p) ∷ drop i items) a, roots-parts i items a)

  -- From `s` to `s'` the node `n` in `q`, with the children `x` and `rest`, is split, and one half
  -- has taken the page `new`: all children are there in their order, and each names its parent.
  pub record NodeHalves (s s' : Index K) (q new_parent : ℕ) (n : Node K) (x : Item K)
      (rest : List (Item K)) (m : Key K) (new : ℕ) (free : List ℕ) : Type 0 where
    pub lower : List (Item K)
    pub middle : Item K
    pub upper : List (Item K)
    pub whole : inserted K m (child new) rest ≡ lower ++ middle ∷ upper
    pub here : s'.pages q ≡ node (with_items K (x ∷ lower) n)
    pub there :
        s'.pages new_parent
        ≡ node (with_items K (middle ∷ upper) (with_parent K n.parent (empty_node K false)))
    pub views : (a : ℕ) → a ≢ q → a ≢ new_parent → view K (s'.pages a) ≡ view K (s.pages a)
    pub moved :
        (a : ℕ)
        → a ≢ q
        → a ≢ new_parent
        → 1 ≤ roots K (middle ∷ upper) a
        → parent_in K (s'.pages a) ≡ some new_parent
    pub kept :
        (a : ℕ)
        → a ≢ q
        → a ≢ new_parent
        → roots K (middle ∷ upper) a ≡ 0
        → parent_in K (s'.pages a) ≡ parent_in K (s.pages a)
    pub stays :
        (a : ℕ) → a ≢ q → a ≢ new_parent → a ≢ new → roots K rest a ≡ 0 → s'.pages a ≡ s.pages a
    pub root : s'.root_page ≡ s.root_page
    pub left : s'.free ≡ free
