-- ===== src/Index/Regrown.antt =====
-- A tree in which the leaf on the way of a key is rewritten, by items within its bounds, is a tree.
use miniob4cqu_db_exp.Common.{
  ℕ, zero, suc, ◌≡◌, ◌≢◌, sym, ap, ◌∙◌, subst, true, Option, List, ◌∷◌, inl, All,
}
use miniob4cqu_db_exp.Index.Page.{IndexKeys, Key, Item, Node, Page, node, Slot}
use miniob4cqu_db_exp.Index.Tree.{Sizes}
use miniob4cqu_db_exp.Index.LeafOrder.{IsSorted}
use miniob4cqu_db_exp.Index.Select.{select}
use miniob4cqu_db_exp.Index.Shape.{AtLeast, Under, OnChild, IsTree}
use miniob4cqu_db_exp.Index.Leaves.{page_items, all_leaves, leaves_in, leaves_of}
use miniob4cqu_db_exp.Index.FindLeaf.{chosen, chosen_in, OnPath}
use miniob4cqu_db_exp.Index.Rewritten.{IsDistinct, inner-other}
use miniob4cqu_db_exp.Index.Retree.{Has, Lacks, Children-unchanged, Children-changed, select-Has}

module _ (K : IndexKeys) (sizes : Sizes) (pages pages' : ℕ → Page K) (leaf : ℕ) (n n' : Node K)
    (at : pages leaf ≡ node n) (is_leaf : n.is_leaf ≡ true)
    (there : (q : ℕ) → q ≢ leaf → pages' q ≡ pages q) where
  leaves_under :
      (height p : ℕ) (m : Node K) (x : Item K) (rest : List (Item K))
      → pages p ≡ node m
      → m.items ≡ x ∷ rest
      → leaves_of K pages (suc height) p ≡ all_leaves K (leaves_of K pages height) (x ∷ rest)
  leaves_under height p m x rest here is =
      ap (λ page. leaves_in K page (λ a. all_leaves K (leaves_of K pages height) a.items)) here
      ∙ ap (all_leaves K (leaves_of K pages height)) is

  unchanged-IsTree :
      (height : ℕ) (low high : Option (Key K)) (p : ℕ)
      → IsTree K pages height low high p
      → Lacks leaf (leaves_of K pages height p)
      → IsTree K pages' height low high p
  unchanged-IsTree zero low high p (m, here, is_leaf_m, sorted, above, below) lacks =
      (m, there p lacks.0 ∙ here, is_leaf_m, sorted, above, below)
  unchanged-IsTree (suc height) low high p
        (m, x, rest, here, inner, is, sorted, above, below, children) lacks =
      (
        m,
        x,
        rest,
        there p (inner-other K pages pages' leaf n n' at is_leaf there p m here inner) ∙ here,
        inner,
        is,
        sorted,
        above,
        below,
        Children-unchanged K (IsTree K pages height) (IsTree K pages' height)
            (leaves_of K pages height) leaf (unchanged-IsTree height) low high x rest children
            (subst (Lacks leaf) (leaves_under height p m x rest here is) lacks),
      )

  module _ (key : Key K) (slot : Slot) where
    on_select :
        (height p : ℕ) (m : Node K) (x : Item K) (rest : List (Item K))
        → pages p ≡ node m
        → m.items ≡ x ∷ rest
        → OnPath K sizes pages key leaf (suc height) p
        → OnChild K (OnPath K sizes pages key leaf height) (select K key x rest).1
    on_select height p m x rest here is =
        subst (OnChild K (OnPath K sizes pages key leaf height))
          (ap (chosen K sizes key) here ∙ ap (chosen_in K sizes key) is)

    OnPath-Has :
        (height : ℕ) (low high : Option (Key K)) (p : ℕ)
        → IsTree K pages height low high p
        → OnPath K sizes pages key leaf height p
        → Has leaf (leaves_of K pages height p)
    OnPath-Has zero low high p t on = inl (sym on)
    OnPath-Has (suc height) low high p (m, x, rest, here, inner, is, sorted, above, below, children)
          on =
        subst (Has leaf) (sym (leaves_under height p m x rest here is)) (
          select-Has K (IsTree K pages height) (leaves_of K pages height) leaf
            (OnPath K sizes pages key leaf height) key (OnPath-Has height) low high x rest children
            (on_select height p m x rest here is on))

    pub OnPath-IsTree :
        pages' leaf ≡ node n'
        → n'.is_leaf ≡ true
        → IsSorted K n'.items
        → ((low : Option (Key K))
            → All (AtLeast K low) n.items
            → AtLeast K low (key, slot)
            → All (AtLeast K low) n'.items)
        → ((high : Option (Key K))
            → All (Under K high) n.items
            → Under K high (key, slot)
            → All (Under K high) n'.items)
        → (height : ℕ) (low high : Option (Key K)) (p : ℕ) → IsTree K pages height low high p
        → OnPath K sizes pages key leaf height p
        → IsDistinct (leaves_of K pages height p)
        → AtLeast K low (key, slot)
        → Under K high (key, slot)
        → IsTree K pages' height low high p
    OnPath-IsTree here' leaf' sorted' lower upper zero low high p
          (m, here, is_leaf_m, sorted, above, below) on distinct low_key high_key =
        (
          n',
          ap pages' (sym on) ∙ here',
          leaf',
          sorted',
          lower low (subst (All (AtLeast K low)) same above) low_key,
          upper high (subst (All (Under K high)) same below) high_key,
        )
      where
        same : m.items ≡ n.items
        same = ap (page_items K) (sym here ∙ ap pages (sym on) ∙ at)
    OnPath-IsTree here' leaf' sorted' lower upper (suc height) low high p
          (m, x, rest, here, inner, is, sorted, above, below, children) on distinct low_key
          high_key =
        (
          m,
          x,
          rest,
          there p (inner-other K pages pages' leaf n n' at is_leaf there p m here inner) ∙ here,
          inner,
          is,
          sorted,
          above,
          below,
          Children-changed K (IsTree K pages height) (IsTree K pages' height)
              (leaves_of K pages height) leaf (unchanged-IsTree height)
              (OnPath K sizes pages key leaf height) key slot (OnPath-Has height)
              (OnPath-IsTree here' leaf' sorted' lower upper height) low high x rest children
              (on_select height p m x rest here is on)
              (subst IsDistinct (leaves_under height p m x rest here is) distinct) low_key high_key,
        )
