-- ===== src/Index/Whole/Create.antt =====
-- What an index holds, empty or not, and the insertion that creates its tree.
use miniob4cqu_db_exp.Common.{
  ℕ, suc, ◌+◌, ◌≤◌, ◌≡◌, ◌≢◌, refl, sym, ap, ◌∙◌, true, Rc, Option, none, some, List, [], ◌∷◌, ◌++◌,
  length, arith,
}
use miniob4cqu_db_exp.Common.Step.{Step, Outcome, done, failed, and_then, ◌>>=◌, ◌>>◌}
use miniob4cqu_db_exp.Index.Page.{
  IndexKeys, Key, Item, header, node, rid, Rid, Index, write, leaf_init_empty, node_insert,
  update_root_page,
}
use miniob4cqu_db_exp.Index.Node.{allocate_page, empty_node, with_items}
use miniob4cqu_db_exp.Index.Leaf
use miniob4cqu_db_exp.Index.Wrote.{
  wrote, without, write_self, write-other, allocate_page-free, init_empty-wrote,
  insert_logged-wrote,
}
use miniob4cqu_db_exp.Index.FullLeaf.{insert_lem}
use miniob4cqu_db_exp.Index.LeafOrder.{slot_of, updated}
use miniob4cqu_db_exp.Index.Tree.{
  Sizes, first_index_page, find_leaf, find_leaf_from, find_leaf_internal, child_of, insert_entry,
  insert_entry_into_leaf_node, create_new_tree, update_root_page_num,
}
use miniob4cqu_db_exp.Index.Whole.{one, occurs, view, parent_in}
use miniob4cqu_db_exp.Index.Whole.Frame.{one_self}
use miniob4cqu_db_exp.Index.Whole.Insertion.{insert_from}
use miniob4cqu_db_exp.Index.Whole.NewRoot.{update_root_page_num_lem}
use miniob4cqu_db_exp.Index.Whole.Holds.{Holds}

-- The levels of an index: none if it is empty.
abbrev pub levels : Option ℕ → ℕ
levels none = 0
levels (some height) = suc height

module _ (K : IndexKeys) (sizes : Sizes) where
  -- An index with no page yet.
  pub record IsEmpty (s : Index K) (items : List (Item K)) : Type 0 where
    pub no_root : s.root_page ≡ none
    pub no_items : items ≡ []
    pub distinct : (a : ℕ) → occurs a s.free ≤ 1
    pub old : Option ℕ
    pub head : s.pages first_index_page ≡ header old
    pub head_apart : occurs first_index_page s.free ≡ 0

  -- The state holds an index with these items, of the height if it is not empty.
  abbrev pub IsIndex : Index K → Option ℕ → List (Item K) → Type 0
  IsIndex s none items = IsEmpty s items
  IsIndex s (some height) items = Holds K sizes s height items

  -- What an insertion leaves: an index that has taken the record, of the same height or one more.
  abbrev pub Inserted :
      Key K → Rid → Index K → ℕ → List (Item K) → Outcome (Index K) (Unit {0}) → Type 0
  Inserted key r s room items o =
      (s' : Index K) × (height' : ℕ) × (items' : List (Item K)) × (o ≡ done tt s')
      × IsIndex s' (some height') items'
      × ((k : Key K) → slot_of K k items' ≡ updated K key (some (rid r)) (λ k. slot_of K k items) k)
      × (height' ≤ room)
      × (length s.free ≤ length s'.free + suc room)

  pub insert_entry-from :
      (fuel root : ℕ) (key : Key K) (r : Rid) (s : Index K)
      → s.root_page ≡ some root
      → insert_entry K sizes fuel key r s ≡ insert_from K sizes key r fuel fuel root s
  unfolding insert_entry find_leaf find_leaf_internal
  insert_entry-from fuel root key r s is =
      ap from_root is
      ∙ ap (λ o. and_then o (λ leaf. insert_entry_into_leaf_node K sizes fuel leaf key r))
          (ap found_from is)
    where
      found_from : Option ℕ → Outcome (Index K) ℕ
      found_from none = failed Rc.empty s
      found_from (some p) = find_leaf_from K sizes (child_of K sizes key) fuel p s

      from_root : Option ℕ → Outcome (Index K) (Unit {0})
      from_root none = create_new_tree K sizes key r s
      from_root (some p) =
          and_then (find_leaf K sizes fuel key s)
            (λ leaf. insert_entry_into_leaf_node K sizes fuel leaf key r)

  -- The steps of the code, with the callees shut.
  abbrev create_steps : Key K → Rid → Step (Index K) (Unit {0})
  create_steps key r = do
    p ← allocate_page K
    Leaf.init_empty K p
    Leaf.insert K p 0 key r
    update_root_page_num K sizes (some p)

  insert_entry-none :
      (fuel : ℕ) (key : Key K) (r : Rid) (s : Index K)
      → s.root_page ≡ none
      → insert_entry K sizes fuel key r s ≡ create_steps key r s
  unfolding insert_entry create_new_tree
  insert_entry-none fuel key r s is = ap from_root is ∙ ap created is
    where
      created : Option ℕ → Outcome (Index K) (Unit {0})
      created none = create_steps key r s
      created (some p) = failed Rc.internal s

      from_root : Option ℕ → Outcome (Index K) (Unit {0})
      from_root none = create_new_tree K sizes key r s
      from_root (some p) =
          and_then (find_leaf K sizes fuel key s)
            (λ leaf. insert_entry_into_leaf_node K sizes fuel leaf key r)

  -- The first insertion.
  module _ (fuel : ℕ) (key : Key K) (r : Rid) (s : Index K) (items : List (Item K))
      (h : IsEmpty s items) (p : ℕ) (free : List ℕ) (fresh : s.free ≡ p ∷ free) where
    abbrev initial : Index K
    initial = wrote K (without K s free) p (empty_node K true) (leaf_init_empty p)

    abbrev filled : Index K
    filled =
        wrote K initial p (with_items K ((key, rid r) ∷ []) (empty_node K true))
          (node_insert p 0 ((key, rid r) ∷ []))

    head_p : first_index_page ≢ p
    head_p same = absurd (
        omega
          (arith, h.head_apart, ap (occurs first_index_page) fresh, one_self p, ap (one p) same))

    pub first-Inserted : Inserted key r s 0 items (insert_entry K sizes fuel key r s)
    first-Inserted = (
      record filled {
        pages = write K filled.pages first_index_page (header (some p));
        root_page = some p;
        log = filled.log ++ update_root_page first_index_page (some p) h.old ∷ [];
      },
      0,
      (key, rid r) ∷ [],
      insert_entry-none fuel key r s h.no_root
          ∙ rw (allocate_page-free K s p free fresh) (
              rw (init_empty-wrote K (without K s free) p) (
                rw (insert_lem K sizes p 0 key r initial) (
                  rw
                    (insert_logged-wrote K initial p (empty_node K true) (write_self K s.pages p _)
                      0 ((key, rid r) ∷ []))
                    (update_root_page_num_lem K sizes filled (some p) h.old (
                      write-other K initial.pages p first_index_page _ head_p
                      ∙ write-other K s.pages p first_index_page _ head_p
                      ∙ h.head))))),
      record {
        root = p;
        own = one p;
        at_root = refl;
        tree = (ap (view K) leaf_here, (tt, tt), (tt, tt), (tt, tt), λ a. refl);
        top = ap (parent_in K) leaf_here;
        distinct = λ a. omega (arith, h.distinct a, ap (occurs a) fresh);
        old = some p;
        head = write_self K filled.pages first_index_page _;
        head_apart = omega (arith, h.head_apart, ap (occurs first_index_page) fresh);
      },
      λ k. ap (λ l. updated K key (some (rid r)) (λ k. slot_of K k l) k) (sym h.no_items),
      omega arith,
      omega (arith, ap length fresh),
    )
      where
        leaf_here :
            write K filled.pages first_index_page (header (some p)) p
            ≡ node (with_items K ((key, rid r) ∷ []) (empty_node K true))
        leaf_here =
            write-other K filled.pages first_index_page p _ (λ e. head_p (sym e))
            ∙ write_self K initial.pages p _
