-- ===== src/Index/Leaf.antt =====
-- LeafIndexNodeHandler (bplus_tree.cpp).
use miniob4cqu_db_exp.Common.{ℕ, ◌-◌, ◌/◌, Bool, true, false, Option, List, [], ◌∷◌, drop}
use miniob4cqu_db_exp.Common.Step.{Step, ◌>>=◌, ◌>>◌, return}
use miniob4cqu_db_exp.Index.Search.{lower_bound}
use miniob4cqu_db_exp.Index.Page.{
  IndexKeys, Key, Item, Node, node, rid, Rid, Index, put_page, append_log_entry, leaf_init_empty,
  leaf_set_next_page,
}
use miniob4cqu_db_exp.Index.Node.{
  load, size, item_at, with_next, empty_node, insert_logged, shrink_logged, remove,
}

module _ (K : IndexKeys) where
  unfoldable pub init_empty : ℕ → Step (Index K) (Unit {0})
  init_empty p = do append_log_entry K (leaf_init_empty p); put_page K p (node (empty_node K true))

  unfoldable pub set_next_page : ℕ → Option ℕ → Step (Index K) (Unit {0})
  unfolding load
  set_next_page p next = do
    n ← load K p
    append_log_entry K (leaf_set_next_page p next n.next_brother)
    put_page K p (node (with_next K next n))

  -- The index of the first item whose key is not below the key, and whether it is the key.
  unfoldable pub lookup : Node K → Key K → ℕ × Bool
  unfolding lower_bound
  lookup n key = lower_bound (λ (x : Item K). K.order.compare_keys x.0 key) n.items

  unfoldable pub insert : ℕ → ℕ → Key K → Rid → Step (Index K) (Unit {0})
  unfolding insert_logged
  insert p index key r = insert_logged K p index ((key, rid r) ∷ [])

  -- `remove` of a key returns the number of items that it removed.
  unfoldable pub remove_key : ℕ → Key K → Step (Index K) ℕ
  unfolding load lookup remove
  remove_key p key = do
    n ← load K p
    let (index, found) = lookup n key
    elim found [ true ↦ do remove K p index; return 1 | false ↦ return 0 ]

  unfoldable pub append : ℕ → List (Item K) → Step (Index K) (Unit {0})
  unfolding load insert_logged
  append p items = do n ← load K p; insert_logged K p (size K n) items

  unfoldable pub move_half_to : ℕ → ℕ → Step (Index K) (Unit {0})
  unfolding load append shrink_logged
  move_half_to p other = do
    n ← load K p
    let move_index = size K n / 2
    append other (drop move_index n.items)
    shrink_logged K p move_index

  unfoldable pub move_first_to_end : ℕ → ℕ → Step (Index K) (Unit {0})
  unfolding load item_at append remove
  move_first_to_end p other = do
    n ← load K p
    x ← item_at K n.items 0
    append other (x ∷ [])
    remove K p 0

  unfoldable pub move_last_to_front : ℕ → ℕ → Step (Index K) (Unit {0})
  unfolding load item_at insert_logged remove
  move_last_to_front p other = do
    n ← load K p
    x ← item_at K n.items (size K n - 1)
    insert_logged K other 0 (x ∷ [])
    remove K p (size K n - 1)

  unfoldable pub move_to : ℕ → ℕ → Step (Index K) (Unit {0})
  unfolding load append set_next_page shrink_logged
  move_to p other = do
    n ← load K p
    append other n.items
    set_next_page other n.next_brother
    shrink_logged K p 0
