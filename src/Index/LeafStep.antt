-- ===== src/Index/LeafStep.antt =====
-- Insertion into a leaf that has room.
use miniob4cqu_db_exp.Common.{
  All, ℕ, ◌<◌, ◌≡◌, ◌≢◌, refl, ap, ◌∙◌, Bool, true, false, Rc, Option, none, some, List, [], ◌∷◌,
  ◌++◌, ◌⊎◌, inl, inr, ltb, lt→ltb,
}
use miniob4cqu_db_exp.Common.Step.{Step, Outcome, done, failed, and_then, fail}
use miniob4cqu_db_exp.Index.Page.{
  IndexKeys, Key, Item, Node, node, Slot, rid, Rid, Index, write, node_insert,
}
use miniob4cqu_db_exp.Index.Node.{size, with_items, recover_insert_items, insert_logged}
use miniob4cqu_db_exp.Index.Wrote.{write_self, write-other, load-node}
use miniob4cqu_db_exp.Index.Leaf
use miniob4cqu_db_exp.Index.SearchBounds.{first_not_below}
use miniob4cqu_db_exp.Index.Shape.{AtLeast, Under}
use miniob4cqu_db_exp.Index.LeafOrder.{
  All-insert, IsSorted, slot_of, position, found, updated, found-slot_of, comparing,
  lookup-first_not_below,
}
use miniob4cqu_db_exp.Index.LeafInsert.{inserted, inserted-IsSorted, slot_of-inserted}
use miniob4cqu_db_exp.Index.Tree.{Sizes, insert_entry_into_leaf_node, insert_into_full_leaf}

module _ (K : IndexKeys) (sizes : Sizes) where
  -- From one state to the next, the leaf in the page takes the slot under the key, within any bounds
  -- that hold for its items and for the key, under the same parent and next page. No other page is
  -- changed.
  pub record Rewrites (p : ℕ) (n : Node K) (key : Key K) (slot : Slot) (s s' : Index K)
      : Type 0 where
    pub items : List (Item K)
    pub sorted : IsSorted K items
    pub maps :
        (k : Key K) → slot_of K k items ≡ updated K key (some slot) (λ k. slot_of K k n.items) k
    pub lower :
        (low : Option (Key K))
        → All (AtLeast K low) n.items
        → AtLeast K low (key, slot)
        → All (AtLeast K low) items
    pub upper :
        (high : Option (Key K))
        → All (Under K high) n.items
        → Under K high (key, slot)
        → All (Under K high) items
    pub here : s'.pages p ≡ node (with_items K items n)
    pub there : (q : ℕ) → q ≢ p → s'.pages q ≡ s.pages q
    pub root : s'.root_page ≡ s.root_page

  -- Insertion into a leaf, in the page `p`, whose items are in order and that has room for one more.
  -- A key that the leaf has is refused as a duplicate and nothing is changed; else the insertion
  -- succeeds: the leaf's items are in order, its map from keys to slots is the old one with the
  -- record under the key, and the other pages and the root stay.
  pub insert_entry_into_leaf_node_lem :
      (fuel p : ℕ) (key : Key K) (r : Rid) (n : Node K) (s : Index K)
      → s.pages p ≡ node n
      → IsSorted K n.items
      → size K n < sizes.leaf_max_size
      → ((slot : Slot) × (slot_of K key n.items ≡ some slot)
          × (insert_entry_into_leaf_node K sizes fuel p key r s ≡ failed Rc.record_duplicate_key s))
        ⊎ ((slot_of K key n.items ≡ none)
            × (s' : Index K) × (insert_entry_into_leaf_node K sizes fuel p key r s ≡ done tt s')
            × Rewrites p n key (rid r) s s')
  unfolding insert_entry_into_leaf_node Leaf.insert insert_logged recover_insert_items
  insert_entry_into_leaf_node_lem fuel p key r n s at sorted room =
      elim (found-slot_of K key n.items sorted) [
        | inl (is, slot, has) ↦ inl (slot, has, run_found is)
        | inr (absent, has_none) ↦ inr (
          has_none,
          record s {
            log = s.log ++ node_insert p (position K key n.items) ((key, rid r) ∷ []) ∷ [];
            pages = write K s.pages p (node (with_items K (inserted K key (rid r) n.items) n));
          },
          run_absent absent,
          record {
            items = inserted K key (rid r) n.items;
            sorted = inserted-IsSorted K key (rid r) n.items sorted absent;
            maps = λ k. slot_of-inserted K key k (rid r) n.items sorted absent;
            lower = λ low above here.
                All-insert K (AtLeast K low) (position K key n.items) (key, rid r) n.items here
                  above;
            upper = λ high below here.
                All-insert K (Under K high) (position K key n.items) (key, rid r) n.items here
                  below;
            here = write_self K s.pages p _;
            there = λ q ne. write-other K s.pages p q _ ne;
            root = refl;
          },
        )
      ]
    where
      -- The handler, with the result of its lookup.
      after_lookup : ℕ × Bool → Outcome (Index K) (Unit {0})
      after_lookup (index, exists) =
          (elim exists as (λ x. Step (Index K) (Unit {0})) [
            | true ↦ fail Rc.record_duplicate_key
            | false ↦ elim (ltb (size K n) sizes.leaf_max_size) [
              | true ↦ Leaf.insert K p index key r
              | false ↦ insert_into_full_leaf K sizes fuel p index key r
            ]
          ])
            s

      looked_up :
          insert_entry_into_leaf_node K sizes fuel p key r s
          ≡ after_lookup (first_not_below (comparing K key) n.items)
      looked_up =
          ap
            (λ o. and_then o (λ n'.
              elim (Leaf.lookup K n' key).1 as (λ x. Step (Index K) (Unit {0})) [
                | true ↦ fail Rc.record_duplicate_key
                | false ↦ elim (ltb (size K n') sizes.leaf_max_size) [
                  | true ↦ Leaf.insert K p (Leaf.lookup K n' key).0 key r
                  | false ↦ insert_into_full_leaf K sizes fuel p (Leaf.lookup K n' key).0 key r
                ]
              ]))
            (load-node K p n s at)
          ∙ ap after_lookup (lookup-first_not_below K n key sorted)

      run_found :
          found K key n.items ≡ true
          → insert_entry_into_leaf_node K sizes fuel p key r s ≡ failed Rc.record_duplicate_key s
      run_found is = looked_up ∙ rw is refl

      run_absent :
          found K key n.items ≡ false
          → insert_entry_into_leaf_node K sizes fuel p key r s
            ≡ done tt (record s {
              log = s.log ++ node_insert p (position K key n.items) ((key, rid r) ∷ []) ∷ [];
              pages = write K s.pages p (node (with_items K (inserted K key (rid r) n.items) n));
            })
      run_absent absent =
          looked_up ∙ rw (absent) (rw (lt→ltb _ _ room) (rw (load-node K p n s at) refl))
