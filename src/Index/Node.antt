-- ===== src/Index/Node.antt =====
-- The node handlers of bplus_tree.cpp. A handler's frame is the number of its page; a handler on a
-- page that holds no node crashes, and so does an assert.
use miniob4cqu_db_exp.Common.{
  ℕ, ◌+◌, Bool, Rc, Option, none, some, List, [], ◌∷◌, ◌++◌, length, take, drop, get_elem?, ltb,
  if◌then◌else◌,
}
use miniob4cqu_db_exp.Common.Step.{Step, done, failed, crash, ◌>>=◌, ◌>>◌, return}
use miniob4cqu_db_exp.Index.Page.{
  IndexKeys, Key, Item, Node, unused, node, Slot, rid, child, Index, put_page, append_log_entry,
  set_parent_page, node_insert, node_remove,
}

module _ (K : IndexKeys) where
  -- LatchMemo::get_page
  unfoldable pub get_page : ℕ → Step (Index K) (Unit {0})
  get_page p s = elim (s.pages p) [ unused ↦ failed Rc.ioerr_read s | _ ↦ done tt s ]

  unfoldable pub load : ℕ → Step (Index K) (Node K)
  load p s = elim (s.pages p) [ node n ↦ done n s | _ ↦ crash ]

  -- LatchMemo::allocate_page
  unfoldable pub allocate_page : Step (Index K) ℕ
  allocate_page s = elim s.free [
    | [] ↦ failed Rc.bufferpool_nobuf s
    | p ∷ free ↦ done p (record s { free = free })
  ]

  -- The item at an index that an assert holds below the size.
  unfoldable pub item_at : List (Item K) → ℕ → Step (Index K) (Item K)
  item_at items index s = elim (get_elem? items index) [ none ↦ crash | some x ↦ done x s ]

  unfoldable pub key_at : ℕ → ℕ → Step (Index K) (Key K)
  unfolding load item_at
  key_at p index = do n ← load p; x ← item_at n.items index; return x.0

  abbrev pub page_of : Slot → Step (Index K) ℕ
  page_of (child p) s = done p s
  page_of (rid r) s = crash

  -- `value_at` of an internal node
  unfoldable pub value_at : ℕ → ℕ → Step (Index K) ℕ
  unfolding load item_at
  value_at p index = do n ← load p; x ← item_at n.items index; page_of x.1

  abbrev pub size : Node K → ℕ
  size n = length n.items

  abbrev pub with_parent : Option ℕ → Node K → Node K
  with_parent parent n = record n { parent = parent }

  abbrev pub with_next : Option ℕ → Node K → Node K
  with_next next n = record n { next_brother = next }

  abbrev pub with_items : List (Item K) → Node K → Node K
  with_items items n = record n { items = items }

  abbrev pub empty_node : Bool → Node K
  empty_node leaf = record { is_leaf = leaf; parent = none; next_brother = none; items = [] }

  unfoldable pub recover_insert_items : ℕ → List (Item K) → Node K → Node K
  recover_insert_items index items n =
      with_items (take index n.items ++ (items ++ drop index n.items)) n

  unfoldable pub recover_remove_items : ℕ → ℕ → Node K → Node K
  recover_remove_items index num n = with_items (take index n.items ++ drop (index + num) n.items) n

  unfoldable pub set_parent_page_num : ℕ → Option ℕ → Step (Index K) (Unit {0})
  unfolding load
  set_parent_page_num p parent = do
    n ← load p
    append_log_entry K (set_parent_page p parent n.parent)
    put_page K p (node (with_parent parent n))

  -- `node_insert_items` of the log, and the change of the page.
  unfoldable pub insert_logged : ℕ → ℕ → List (Item K) → Step (Index K) (Unit {0})
  unfolding load recover_insert_items
  insert_logged p index items = do
    n ← load p
    append_log_entry K (node_insert p index items)
    put_page K p (node (recover_insert_items index items n))

  -- `node_remove_items` of the log, and the change of the page.
  unfoldable pub remove_logged : ℕ → ℕ → ℕ → Step (Index K) (Unit {0})
  unfolding load recover_remove_items
  remove_logged p index num = do
    n ← load p
    append_log_entry K (node_remove p index (take num (drop index n.items)))
    put_page K p (node (recover_remove_items index num n))

  -- The same, where the code only lowers the number of items.
  unfoldable pub shrink_logged : ℕ → ℕ → Step (Index K) (Unit {0})
  unfolding load
  shrink_logged p index = do
    n ← load p
    append_log_entry K (node_remove p index (drop index n.items))
    put_page K p (node (with_items (take index n.items) n))

  unfoldable pub remove : ℕ → ℕ → Step (Index K) (Unit {0})
  unfolding load remove_logged
  remove p index = do n ← load p; if ltb index (size n) then remove_logged p index 1 else λ s. crash
