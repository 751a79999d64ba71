-- ===== src/Index/Whole/Insertion.antt =====
-- Insertion into a tree of any height, up to a split of its root.
use miniob4cqu_db_exp.Common.{
  ℕ, zero, suc, ◌≤◌, ◌<◌, ◌≡◌, refl, sym, ap, subst, true, false, Option, some, List, [], ◌∷◌, All,
  length, arith,
}
use Prim.Native.Nat.{Ordering}
use miniob4cqu_db_exp.Common.Step.{Step, done, and_then, ◌>>=◌}
use miniob4cqu_db_exp.Index.Page.{
  IndexKeys, Key, Item, Node, Page, node, Slot, rid, child, Rid, Index,
}
use miniob4cqu_db_exp.Index.Wrote.{load-node, get_page-node}
use miniob4cqu_db_exp.Index.LeafOrder.{IsSorted, comparing}
use miniob4cqu_db_exp.Index.Shape.{AtLeast, Under, OnChild}
use miniob4cqu_db_exp.Index.Select.{select, select_at}
use miniob4cqu_db_exp.Index.FindLeaf.{child_of-select}
use miniob4cqu_db_exp.Index.Tree.{Sizes, find_leaf_from, child_of, insert_entry_into_leaf_node}
use miniob4cqu_db_exp.Index.Whole.{parent_in, Names, Tree}
use miniob4cqu_db_exp.Index.Whole.Forget.{view-node}
use miniob4cqu_db_exp.Index.Whole.Result.{Distinct, TreeResult}
use miniob4cqu_db_exp.Index.Whole.Children.{Kids-result}
use miniob4cqu_db_exp.Index.Whole.Ascend.{Tree-result}
use miniob4cqu_db_exp.Index.Whole.AtLeaf.{leaf-result}

module _ (K : IndexKeys) (sizes : Sizes) (key : Key K) (r : Rid) where
  slot-child : (P : ℕ → Type 0) (slot : Slot) → OnChild K P slot → (c : ℕ) × (slot ≡ child c)
  slot-child P (child c) h = (c, refl)
  slot-child P (rid i) h = elim h [ ]

  select-child :
      (pages : ℕ → Page K) (q : ℕ) (x : Item K) (rest : List (Item K))
      → All (Names K pages q) (x ∷ rest)
      → (c : ℕ) × ((select K key x rest).1 ≡ child c)
  select-child pages q x [] h = slot-child (λ c. parent_in K (pages c) ≡ some q) x.1 h.0
  select-child pages q x (y ∷ rest) h =
      by_order (comparing K key y) (select-child pages q y rest h.1)
    where
      by_order :
          (o : Ordering)
          → (c : ℕ) × ((select K key y rest).1 ≡ child c)
          → (c : ℕ) × ((select_at K o x (select K key y rest)).1 ≡ child c)
      by_order Ordering.lt later = later
      by_order Ordering.eq later = later
      by_order Ordering.gt later = slot-child (λ c. parent_in K (pages c) ≡ some q) x.1 h.0

  find-inner :
      (f q c : ℕ) (s : Index K) (n : Node K) (x : Item K) (rest : List (Item K))
      → s.pages q ≡ node n
      → n.is_leaf ≡ false
      → n.items ≡ x ∷ rest
      → IsSorted K rest
      → (select K key x rest).1 ≡ child c
      → find_leaf_from K sizes (child_of K sizes key) (suc f) q s
        ≡ find_leaf_from K sizes (child_of K sizes key) f c s
  unfolding find_leaf_from
  find-inner f q c s n x rest at inner is sorted to =
      rw (get_page-node K q n s at, find_leaf_from)
        (rw (load-node K q n s at, find_leaf_from)
          (rw (inner, find_leaf_from)
            (rw (child_of-select K sizes key n x rest c s is sorted to, find_leaf_from) refl)))

  find-leaf :
      (f p : ℕ) (s : Index K) (n : Node K)
      → s.pages p ≡ node n
      → n.is_leaf ≡ true
      → find_leaf_from K sizes (child_of K sizes key) (suc f) p s ≡ done p s
  unfolding find_leaf_from
  find-leaf f p s n at leaf =
      rw (get_page-node K p n s at, find_leaf_from)
        (rw (load-node K p n s at, find_leaf_from) (rw (leaf, find_leaf_from) refl))

  -- The way down from a page, and the insertion into the leaf at its end.
  abbrev pub insert_from : ℕ → ℕ → ℕ → Step (Index K) (Unit {0})
  insert_from fuel f p = do
    leaf ← find_leaf_from K sizes (child_of K sizes key) f p
    insert_entry_into_leaf_node K sizes fuel leaf key r

  pub Tree-inserts :
      (fuel height f : ℕ) (s : Index K) (low high : Option (Key K)) (p : ℕ) (own : ℕ → ℕ)
      (items : List (Item K))
      → height < f
      → height < suc fuel
      → 2 ≤ sizes.leaf_max_size
      → 2 ≤ sizes.internal_max_size
      → suc height ≤ length s.free
      → Tree K s.pages height low high p own items
      → AtLeast K low (key, rid r)
      → Under K high (key, rid r)
      → Distinct K sizes own s
      → TreeResult K sizes key r fuel height low high p s own items (insert_from fuel f p s)
  Tree-inserts fuel height zero s low high p own items deep high_enough l i room t above below
        distinct =
      absurd (omega arith)
  Tree-inserts fuel zero (suc f) s low high p own items deep high_enough l i room t above below
        distinct =
      let (n, here, leaf, is) = view-node K (s.pages p) true items t.0 in
      subst (TreeResult K sizes key r fuel zero low high p s own items)
        (ap (λ o. and_then o (λ leaf. insert_entry_into_leaf_node K sizes fuel leaf key r))
          (sym (find-leaf f p s n here leaf)))
        (leaf-result K sizes fuel p key r s low high own items t above below distinct l room)
  Tree-inserts fuel (suc height) (suc f) s low high p own items deep high_enough l i room
        (x, rest, kids, at, sorted, over, under, names, owns, ks) above below distinct =
      let (n, here, inner, is) = view-node K (s.pages p) false (x ∷ rest) at in
      let (c, to) = select-child s.pages p x rest names in
      subst (TreeResult K sizes key r fuel (suc height) low high p s own items)
        (ap (λ o. and_then o (λ leaf. insert_entry_into_leaf_node K sizes fuel leaf key r))
          (sym (find-inner f p c s n x rest here inner is sorted to)))
        (Tree-result K sizes key r fuel height p c s low high x rest own kids items
          (insert_from fuel f c s) at sorted over under owns distinct i (omega arith) room
          (Kids-result K sizes key r fuel height p s (λ c. insert_from fuel f c s)
            (λ low' high' c' own' items' t' above' below' distinct'.
              Tree-inserts fuel height f s low' high' c' own' items' (omega arith) (omega arith) l i
                (omega arith) t' above' below' distinct')
            low high x rest c kids items ks above below sorted over under names
            (λ a. omega (arith, owns a, distinct a)) to))
