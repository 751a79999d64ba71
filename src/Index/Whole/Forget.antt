-- ===== src/Index/Whole/Forget.antt =====
-- A whole tree is a B+ tree with these items.
use miniob4cqu_db_exp.Common.{
  ℕ, zero, suc, ◌≡◌, refl, sym, ap, ◌∙◌, subst, Bool, true, false, Option, none, some, List, [],
  ◌∷◌, ◌++◌, All, arith,
}
use mathlib.Core.List.{append-nil}
use miniob4cqu_db_exp.Index.Page.{
  IndexKeys, Key, Item, Node, Page, unused, header, node, Slot, rid, child,
}
use miniob4cqu_db_exp.Index.LeafOrder.{IsSorted}
use miniob4cqu_db_exp.Index.Shape.{
  AtLeast, Under, OnChild, Children, IsTree, child_items, all_items, items_in, items_of, All-map,
  items_of-AtLeast, items_of-Under, Children-AtLeast,
}
use miniob4cqu_db_exp.Index.Whole.{view, Over, Kids, Tree}

module _ (K : IndexKeys) where
  pub view-node :
      (page : Page K) (leaf : Bool) (items : List (Item K))
      → view K page ≡ some (leaf, items)
      → (n : Node K) × (page ≡ node n) × (n.is_leaf ≡ leaf) × (n.items ≡ items)
  view-node unused leaf items h = absurd (ground (arith, h))
  view-node (header root) leaf items h = absurd (ground (arith, h))
  view-node (node n) leaf items h = (n, refl, cc, cc)

  pub Over-AtLeast : (low : Option (Key K)) (x : Item K) → Over K low x → AtLeast K low x
  Over-AtLeast none x h = tt
  Over-AtLeast (some low) x h = λ k. absurd (ground (arith, h, k))

  module _ (P : Option (Key K) → Option (Key K) → ℕ → (ℕ → ℕ) → List (Item K) → Type 0)
      (Q : Option (Key K) → Option (Key K) → ℕ → Type 0) (items_at : ℕ → List (Item K))
      (forget : (low high : Option (Key K)) (c : ℕ) (own : ℕ → ℕ) (items : List (Item K))
        → P low high c own items
        → Q low high c × (items_at c ≡ items)) where
    slot-forget :
        (low high : Option (Key K)) (slot : Slot) (own : ℕ → ℕ) (items : List (Item K))
        → OnChild K (λ c. P low high c own items) slot
        → OnChild K (Q low high) slot × (child_items K items_at slot ≡ items)
    slot-forget low high (child c) own items h = forget low high c own items h
    slot-forget low high (rid r) own items h = elim h [ ]

    pub Kids-forget :
        (low high : Option (Key K)) (x : Item K) (rest : List (Item K)) (own : ℕ → ℕ)
        (items : List (Item K))
        → Kids K P low high x rest own items
        → Children K Q low high x rest × (all_items K items_at (x ∷ rest) ≡ items)
    Kids-forget low high x [] own items h =
        let (t, is) = slot-forget low high x.1 own items h in (t, append-nil _ ∙ is)
    Kids-forget low high x (y ∷ rest) own items (first, later, left, right, owns, is, h, hs) =
        let (t, one) = slot-forget low (some y.0) x.1 first left h in
        let (ts, more) = Kids-forget (some y.0) high y rest later right hs in
        (
          (t, ts),
          ap (λ l. l ++ all_items K items_at (y ∷ rest)) one ∙ ap (λ l. left ++ l) more ∙ sym is,
        )

  module _ (pages : ℕ → Page K) where
    pub Tree-IsTree :
        (height : ℕ) (low high : Option (Key K)) (p : ℕ) (own : ℕ → ℕ) (items : List (Item K))
        → Tree K pages height low high p own items
        → IsTree K pages height low high p × (items_of K pages height p ≡ items)
    Tree-IsTree zero low high p own items (at, sorted, above, below, owns) =
        let (n, here, leaf, is) = view-node (pages p) true items at in
        (
          (
            n,
            here,
            leaf,
            subst (IsSorted K) (sym is) sorted,
            subst (All (AtLeast K low)) (sym is) above,
            subst (All (Under K high)) (sym is) below,
          ),
          ap (λ page. items_in K page (λ n. n.items)) here ∙ is,
        )
    Tree-IsTree (suc height) low high p own items
          (x, rest, kids, at, sorted, above, below, names, owns, ks) =
        let (n, here, inner, is) = view-node (pages p) false (x ∷ rest) at in
        let (children, all) =
          Kids-forget (Tree K pages height) (IsTree K pages height) (items_of K pages height)
            (Tree-IsTree height) low high x rest kids items ks in
        (
          (
            n,
            x,
            rest,
            here,
            inner,
            is,
            sorted,
            All-map K (Over K low) (AtLeast K low) rest (Over-AtLeast low) above,
            below,
            children,
          ),
          ap (λ page. items_in K page (λ n. all_items K (items_of K pages height) n.items)) here
              ∙ ap (all_items K (items_of K pages height)) is
              ∙ all,
        )

    module _ (height : ℕ) (low high : Option (Key K)) (p : ℕ) (own : ℕ → ℕ) (items : List (Item K))
        (t : Tree K pages height low high p own items) where
      pub Tree-Under : All (Under K high) items
      Tree-Under =
          let (tree, is) = Tree-IsTree height low high p own items t in
          subst (All (Under K high)) is (items_of-Under K pages height low high p tree)

    pub Kids-AtLeast :
        (height : ℕ) (low high : Option (Key K)) (x : Item K) (rest : List (Item K)) (own : ℕ → ℕ)
        (items : List (Item K))
        → All (AtLeast K low) rest
        → Kids K (Tree K pages height) low high x rest own items
        → All (AtLeast K low) items
    Kids-AtLeast height low high x rest own items bounds ks =
        let (children, all) =
          Kids-forget (Tree K pages height) (IsTree K pages height) (items_of K pages height)
            (Tree-IsTree height) low high x rest own items ks in
        subst (All (AtLeast K low)) all (
          Children-AtLeast K (IsTree K pages height) (items_of K pages height)
            (items_of-AtLeast K pages height) low low high x rest (λ y h. h) bounds children)
