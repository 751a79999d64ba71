-- ===== src/Index/Wrote.antt =====
-- The single writes of the node handlers, each as one change of the state.
use miniob4cqu_db_exp.Common.{
  ℕ, ◌≡◌, ◌≢◌, refl, sym, Option, List, [], ◌∷◌, ◌++◌, take, drop, inl, inr, true, false, ◌==◌,
  ==_iff, Bool-cases,
}
use miniob4cqu_db_exp.Common.Step.{done}
use miniob4cqu_db_exp.Index.Page.{
  IndexKeys, Item, Node, Page, node, Index, LogEntry, write, leaf_init_empty, internal_init_empty,
  set_parent_page, leaf_set_next_page, node_insert, node_remove,
}
use miniob4cqu_db_exp.Index.Node.{
  allocate_page, get_page, load, key_at, item_at, with_items, with_parent, with_next, empty_node,
  recover_insert_items, insert_logged, shrink_logged, set_parent_page_num,
}
use miniob4cqu_db_exp.Index.Leaf
use miniob4cqu_db_exp.Index.Internal

module _ (K : IndexKeys) where
  pub write_self : (pages : ℕ → Page K) (p : ℕ) (page : Page K) → write K pages p page p ≡ page
  write_self pages p page = rw ((==_iff p p).1 refl) refl

  pub write-other :
      (pages : ℕ → Page K) (p q : ℕ) (page : Page K) → q ≢ p → write K pages p page q ≡ pages q
  write-other pages p q page ne = elim (Bool-cases (p == q)) [
    | inl same ↦ absurd (ne (sym ((==_iff p q).0 same)))
    | inr other ↦ rw other refl
  ]

  pub load-node : (p : ℕ) (n : Node K) (s : Index K) → s.pages p ≡ node n → load K p s ≡ done n s
  unfolding load
  load-node p n s h = rw (h, load) refl

  pub get_page-node :
      (p : ℕ) (n : Node K) (s : Index K) → s.pages p ≡ node n → get_page K p s ≡ done tt s
  unfolding get_page
  get_page-node p n s h = rw (h, get_page) refl

  pub key_at-first :
      (p : ℕ) (s : Index K) (n : Node K) (x : Item K) (rest : List (Item K))
      → s.pages p ≡ node n
      → n.items ≡ x ∷ rest
      → key_at K p 0 s ≡ done x.0 s
  unfolding key_at
  key_at-first p s n x rest at is = rw (load-node p n s at) (rw (is, item_at) refl)

  -- A page is written and the change is logged.
  abbrev pub wrote : Index K → ℕ → Node K → LogEntry K → Index K
  wrote s p n e = record s { log = s.log ++ e ∷ []; pages = write K s.pages p (node n) }

  abbrev pub without : Index K → List ℕ → Index K
  without s free = record s { free = free }

  pub allocate_page-free :
      (s : Index K) (p : ℕ) (free : List ℕ)
      → s.free ≡ p ∷ free
      → allocate_page K s ≡ done p (without s free)
  unfolding allocate_page
  allocate_page-free s p free h = rw (h, allocate_page) refl

  pub init_empty-wrote :
      (s : Index K) (p : ℕ)
      → Leaf.init_empty K p s ≡ done tt (wrote s p (empty_node K true) (leaf_init_empty p))
  unfolding Leaf.init_empty
  init_empty-wrote s p = refl

  pub internal_init_empty-wrote :
      (s : Index K) (p : ℕ)
      → Internal.init_empty K p s ≡ done tt (wrote s p (empty_node K false) (internal_init_empty p))
  unfolding Internal.init_empty
  internal_init_empty-wrote s p = refl

  module _ (s : Index K) (p : ℕ) (n : Node K) (at : s.pages p ≡ node n) where
    pub set_parent_page_num-wrote :
        (parent : Option ℕ)
        → set_parent_page_num K p parent s
          ≡ done tt (wrote s p (with_parent K parent n) (set_parent_page p parent n.parent))
    unfolding set_parent_page_num
    set_parent_page_num-wrote parent = rw (load-node p n s at) refl

    pub set_next_page-wrote :
        (next : Option ℕ)
        → Leaf.set_next_page K p next s
          ≡ done tt (wrote s p (with_next K next n) (leaf_set_next_page p next n.next_brother))
    unfolding Leaf.set_next_page
    set_next_page-wrote next = rw (load-node p n s at) refl

    pub insert_logged-wrote :
        (index : ℕ) (items : List (Item K))
        → insert_logged K p index items s
          ≡ done tt (
              wrote s p
                (with_items K (take index n.items ++ (items ++ drop index n.items)) n)
                (node_insert p index items))
    unfolding insert_logged recover_insert_items
    insert_logged-wrote index items = rw (load-node p n s at) refl

    pub shrink_logged-wrote :
        (index : ℕ)
        → shrink_logged K p index s
          ≡ done tt (
              wrote s p
                (with_items K (take index n.items) n)
                (node_remove p index (drop index n.items)))
    unfolding shrink_logged
    shrink_logged-wrote index = rw (load-node p n s at) refl
