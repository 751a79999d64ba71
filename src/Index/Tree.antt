-- ===== src/Index/Tree.antt =====
-- BplusTreeHandler: the way to a leaf, and insertion (bplus_tree.cpp). Fuel bounds the height of
-- the tree; at its end the steps crash.
use Prim.Native.Nat.{Ordering}
use miniob4cqu_db_exp.Common.{
  ℕ, zero, suc, ◌-◌, Bool, true, false, Rc, Option, none, some, ltb, if◌then◌else◌,
}
use miniob4cqu_db_exp.Common.Step.{Step, done, crash, ◌>>=◌, ◌>>◌, return, fail, ignore}
use miniob4cqu_db_exp.Index.Page.{
  IndexKeys, Key, Node, header, Rid, Index, put_page, append_log_entry, update_root_page,
}
use miniob4cqu_db_exp.Index.Node.{
  get_page, load, allocate_page, size, key_at, item_at, page_of, set_parent_page_num,
}
use miniob4cqu_db_exp.Index.Leaf
use miniob4cqu_db_exp.Index.Internal

-- The sizes in IndexFileHeader.
pub record Sizes : Type 0 where
  pub internal_max_size : ℕ
  pub leaf_max_size : ℕ

-- FIRST_INDEX_PAGE
abbrev pub first_index_page : ℕ
first_index_page = 1

module _ (K : IndexKeys) (sizes : Sizes) where
  abbrev pub max_size : Bool → ℕ
  max_size leaf = if leaf then sizes.leaf_max_size else sizes.internal_max_size

  -- The header page is the first page of the file; without it the handler has a null frame.
  unfoldable pub update_root_page_num : Option ℕ → Step (Index K) (Unit {0})
  update_root_page_num root s = elim (s.pages first_index_page) [
    | header old ↦
        (do
          append_log_entry K (update_root_page first_index_page root old)
          put_page K first_index_page (header root)
          λ s. done tt (record s { root_page = root }))
          s
    | _ ↦ crash
  ]

  unfoldable pub find_leaf_from : (Node K → Step (Index K) ℕ) → ℕ → ℕ → Step (Index K) ℕ
  unfolding get_page load
  find_leaf_from child_page zero p = λ s. crash
  find_leaf_from child_page (suc fuel) p = do
    get_page K p
    n ← load K p
    elim n.is_leaf [
      | true ↦ return p
      | false ↦ do c ← child_page n; find_leaf_from child_page fuel c
    ]

  unfoldable pub find_leaf_internal : (Node K → Step (Index K) ℕ) → ℕ → Step (Index K) ℕ
  unfolding find_leaf_from
  find_leaf_internal child_page fuel s = elim s.root_page [
    | none ↦ fail Rc.empty s
    | some root ↦ find_leaf_from child_page fuel root s
  ]

  unfoldable pub child_of : Key K → Node K → Step (Index K) ℕ
  unfolding item_at Internal.lookup
  child_of key n = do x ← item_at K n.items (Internal.lookup K n key).0; page_of K x.1

  unfoldable pub first_child : Node K → Step (Index K) ℕ
  unfolding item_at
  first_child n = do x ← item_at K n.items 0; page_of K x.1

  unfoldable pub find_leaf : ℕ → Key K → Step (Index K) ℕ
  unfolding find_leaf_internal child_of
  find_leaf fuel key = find_leaf_internal (child_of key) fuel

  unfoldable pub left_most_page : ℕ → Step (Index K) ℕ
  unfolding find_leaf_internal first_child
  left_most_page fuel = find_leaf_internal first_child fuel

  -- `split`, for leaves and for internal nodes.
  unfoldable pub split : Bool → ℕ → Step (Index K) ℕ
  unfolding load allocate_page set_parent_page_num Leaf.init_empty Leaf.move_half_to
      Internal.init_empty Internal.move_half_to
  split leaf p = do
    new ← allocate_page K
    if leaf then Leaf.init_empty K new else Internal.init_empty K new
    n ← load K p
    set_parent_page_num K new n.parent
    ignore (if leaf then Leaf.move_half_to K p new else Internal.move_half_to K p new)
    return new

  -- A new root above the page and its new neighbour.
  unfoldable pub grow_root : ℕ → ℕ → Key K → Step (Index K) (Unit {0})
  unfolding allocate_page set_parent_page_num Internal.init_empty Internal.create_new_root
      update_root_page_num
  grow_root p new key = do
    root ← allocate_page K
    Internal.init_empty K root
    Internal.create_new_root K root p key new
    set_parent_page_num K p (some root)
    set_parent_page_num K new (some root)
    update_root_page_num (some root)

  -- The insertion into one of the halves of a parent that was split.
  unfoldable pub insert_into_half : ℕ → ℕ → ℕ → Key K → Step (Index K) (Unit {0})
  unfolding key_at set_parent_page_num Internal.insert
  insert_into_half parent new_parent new key = do
    middle ← key_at K new_parent 0
    elim (K.order.compare_keys key middle) [
      | Ordering.gt ↦ do
        Internal.insert K new_parent key new
        set_parent_page_num K new (some new_parent)
      | _ ↦ do Internal.insert K parent key new; set_parent_page_num K new (some parent)
    ]

  unfoldable pub insert_entry_into_parent : ℕ → ℕ → ℕ → Key K → Step (Index K) (Unit {0})
  unfolding get_page load key_at set_parent_page_num Internal.insert split grow_root
      insert_into_half
  insert_entry_into_parent zero p new key = λ s. crash
  insert_entry_into_parent (suc fuel) p new key = do
    n ← load K p
    elim n.parent [
      | none ↦ grow_root p new key
      | some parent ↦ do
        get_page K parent
        above ← load K parent
        elim (ltb (size K above) (max_size false)) [
          | true ↦ do Internal.insert K parent key new; set_parent_page_num K new (some parent)
          | false ↦ do
            new_parent ← split false parent
            insert_into_half parent new_parent new key
            middle ← key_at K new_parent 0
            insert_entry_into_parent fuel parent new_parent middle
        ]
    ]

  -- A leaf that is full: a new leaf takes its upper half.
  unfoldable pub insert_into_full_leaf : ℕ → ℕ → ℕ → Key K → Rid → Step (Index K) (Unit {0})
  unfolding load key_at set_parent_page_num Leaf.set_next_page Leaf.insert split
      insert_entry_into_parent
  insert_into_full_leaf fuel p insert_position key r = do
    new ← split true p
    n ← load K p
    Leaf.set_next_page K new n.next_brother
    set_parent_page_num K new n.parent
    Leaf.set_next_page K p (some new)
    elim (ltb insert_position (size K n)) [
      | true ↦ Leaf.insert K p insert_position key r
      | false ↦ Leaf.insert K new (insert_position - size K n) key r
    ]
    middle ← key_at K new 0
    insert_entry_into_parent fuel p new middle

  unfoldable pub insert_entry_into_leaf_node : ℕ → ℕ → Key K → Rid → Step (Index K) (Unit {0})
  unfolding load Leaf.lookup Leaf.insert insert_into_full_leaf
  insert_entry_into_leaf_node fuel p key r = do
    n ← load K p
    let (insert_position, exists) = Leaf.lookup K n key
    elim exists [
      | true ↦ fail Rc.record_duplicate_key
      | false ↦ elim (ltb (size K n) (max_size true)) [
        | true ↦ Leaf.insert K p insert_position key r
        | false ↦ insert_into_full_leaf fuel p insert_position key r
      ]
    ]

  unfoldable pub create_new_tree : Key K → Rid → Step (Index K) (Unit {0})
  unfolding allocate_page Leaf.init_empty Leaf.insert update_root_page_num
  create_new_tree key r s = elim s.root_page [
    | some root ↦ fail Rc.internal s
    | none ↦
        (do
          p ← allocate_page K
          Leaf.init_empty K p
          Leaf.insert K p 0 key r
          update_root_page_num (some p))
          s
  ]

  -- `insert_entry`, behind `make_key`.
  unfoldable pub insert_entry : ℕ → Key K → Rid → Step (Index K) (Unit {0})
  unfolding create_new_tree find_leaf insert_entry_into_leaf_node
  insert_entry fuel key r s = elim s.root_page [
    | none ↦ create_new_tree key r s
    | some root ↦ (do leaf ← find_leaf fuel key; insert_entry_into_leaf_node fuel leaf key r) s
  ]
