-- ===== src/Index/Internal.antt =====
-- InternalIndexNodeHandler (bplus_tree.cpp).
use Prim.Native.Nat.{Ordering}
use miniob4cqu_db_exp.Common.{
  ℕ, ◌+◌, ◌-◌, ◌/◌, false, none, some, List, [], ◌∷◌, drop, set, get_elem?, if◌then◌else◌, ◌==◌,
}
use miniob4cqu_db_exp.Common.Step.{Step, crash, ◌>>=◌, ◌>>◌, return}
use miniob4cqu_db_exp.Index.Search.{lower_bound}
use miniob4cqu_db_exp.Index.Page.{
  IndexKeys, Key, Item, Node, node, child, Index, put_page, append_log_entry, internal_init_empty,
  internal_create_new_root, internal_update_key,
}
use miniob4cqu_db_exp.Index.Node.{
  get_page, load, size, item_at, page_of, with_items, empty_node, set_parent_page_num,
  insert_logged, remove_logged, shrink_logged, remove,
}

module _ (K : IndexKeys) where
  unfoldable pub init_empty : ℕ → Step (Index K) (Unit {0})
  init_empty p = do
    append_log_entry K (internal_init_empty p)
    put_page K p (node (empty_node K false))

  -- The two items of a new root.
  abbrev pub root_items : ℕ → Key K → ℕ → List (Item K)
  root_items first_page key page = (K.zero_key, child first_page) ∷ (key, child page) ∷ []

  -- It is called on a node that is empty.
  unfoldable pub create_new_root : ℕ → ℕ → Key K → ℕ → Step (Index K) (Unit {0})
  unfolding load
  create_new_root p first_page key page = do
    n ← load K p
    elim n.items [
      | [] ↦ do
        append_log_entry K (internal_create_new_root p first_page key page)
        put_page K p (node (with_items K (root_items first_page key page) n))
      | x ∷ items ↦ λ s. crash
    ]

  -- The index of the child to search, given the position for insertion.
  abbrev pub child_index : List (Item K) → Key K → ℕ → ℕ
  child_index items key ret = elim (get_elem? items ret) [
    | none ↦ ret - 1
    | some x ↦ elim (K.order.compare_keys key x.0) [ Ordering.lt ↦ ret - 1 | _ ↦ ret ]
  ]

  -- `lookup`: the index of the child, and the position for insertion.
  unfoldable pub lookup : Node K → Key K → ℕ × ℕ
  unfolding lower_bound
  lookup n key =
      if size K n == 0
      then (0, 1)
      else let ret =
          (lower_bound (λ (x : Item K). K.order.compare_keys x.0 key) (drop 1 n.items)).0 + 1 in
        (child_index n.items key ret, ret)

  unfoldable pub insert : ℕ → Key K → ℕ → Step (Index K) (Unit {0})
  unfolding load lookup insert_logged
  insert p key page = do n ← load K p; insert_logged K p (lookup n key).1 ((key, child page) ∷ [])

  unfoldable pub set_key_at : ℕ → ℕ → Key K → Step (Index K) (Unit {0})
  unfolding load item_at
  set_key_at p index key = do
    n ← load K p
    x ← item_at K n.items index
    append_log_entry K (internal_update_key p index key x.0)
    put_page K p (node (with_items K (set n.items index (key, x.1)) n))

  -- The loop of `insert_items` over the children.
  unfoldable pub set_parents : ℕ → List (Item K) → Step (Index K) (Unit {0})
  unfolding get_page set_parent_page_num
  set_parents p [] = return tt
  set_parents p (x ∷ items) = do
    c ← page_of K x.1
    get_page K c
    set_parent_page_num K c (some p)
    set_parents p items

  unfoldable pub insert_items : ℕ → ℕ → List (Item K) → Step (Index K) (Unit {0})
  unfolding insert_logged set_parents
  insert_items p index items = do insert_logged K p index items; set_parents p items

  unfoldable pub append : ℕ → List (Item K) → Step (Index K) (Unit {0})
  unfolding load insert_items
  append p items = do n ← load K p; insert_items p (size K n) items

  unfoldable pub move_half_to : ℕ → ℕ → Step (Index K) (Unit {0})
  unfolding load append shrink_logged
  move_half_to p other = do
    n ← load K p
    let move_index = size K n / 2
    append other (drop move_index n.items)
    shrink_logged K p move_index

  unfoldable pub move_to : ℕ → ℕ → Step (Index K) (Unit {0})
  unfolding load append remove_logged
  move_to p other = do n ← load K p; append other n.items; remove_logged K p 0 (size K n)

  unfoldable pub move_first_to_end : ℕ → ℕ → Step (Index K) (Unit {0})
  unfolding load item_at append remove
  move_first_to_end p other = do
    n ← load K p
    x ← item_at K n.items 0
    append other (x ∷ [])
    remove K p 0

  unfoldable pub move_last_to_front : ℕ → ℕ → Step (Index K) (Unit {0})
  unfolding load item_at insert_items shrink_logged
  move_last_to_front p other = do
    n ← load K p
    x ← item_at K n.items (size K n - 1)
    insert_items other 0 (x ∷ [])
    shrink_logged K p (size K n - 1)
