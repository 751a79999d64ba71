-- ===== src/Index/Replay.antt =====
-- Redo and rollback of the log of a mini transaction (bplus_tree_log.cpp, bplus_tree_log_entry.cpp).
-- An entry acts on the page of its frame.
use miniob4cqu_db_exp.Common.{
  ℕ, ◌-◌, Bool, true, false, Rc, Option, none, some, List, [], ◌∷◌, length, set, get_elem?, take,
  ltb, leb, ◌==◌, if◌then◌else◌, reverse,
}
use miniob4cqu_db_exp.Index.Page.{
  IndexKeys, Item, Node, Page, header, node, Index, write, LogEntry, update_root_page,
  set_parent_page, leaf_init_empty, leaf_set_next_page, internal_init_empty,
  internal_create_new_root, internal_update_key, node_insert, node_remove,
}
use miniob4cqu_db_exp.Index.Node.{
  size, with_parent, with_next, with_items, empty_node, recover_insert_items, recover_remove_items,
}
use miniob4cqu_db_exp.Index.Internal.{root_items}
use miniob4cqu_db_exp.Index.Tree.{first_index_page}

module _ (K : IndexKeys) where
  abbrev pub page_num : LogEntry K → ℕ
  page_num (update_root_page p root old) = p
  page_num (set_parent_page p parent old) = p
  page_num (leaf_init_empty p) = p
  page_num (leaf_set_next_page p next old) = p
  page_num (internal_init_empty p) = p
  page_num (internal_create_new_root p first_page key page) = p
  page_num (internal_update_key p index key old) = p
  page_num (node_insert p index items) = p
  page_num (node_remove p index items) = p

  -- `redo` of an entry on the page of its frame; a page of another kind, and an assert, crash.
  unfoldable pub redo_page : LogEntry K → Page K → Option (Page K)
  unfolding recover_insert_items recover_remove_items
  redo_page (update_root_page p root old) (header now) = some (header root)
  redo_page (set_parent_page p parent old) (node n) = some (node (with_parent K parent n))
  redo_page (leaf_init_empty p) page = some (node (empty_node K true))
  redo_page (leaf_set_next_page p next old) (node n) = some (node (with_next K next n))
  redo_page (internal_init_empty p) page = some (node (empty_node K false))
  redo_page (internal_create_new_root p first_page key page) (node n) = elim n.items [
    | [] ↦ some (node (with_items K (root_items K first_page key page) n))
    | x ∷ items ↦ none
  ]
  redo_page (internal_update_key p index key old) (node n) = elim (get_elem? n.items index) [
    | none ↦ none
    | some x ↦ some (node (with_items K (set n.items index (key, x.1)) n))
  ]
  redo_page (node_insert p index items) (node n) =
      some (node (recover_insert_items K index items n))
  redo_page (node_remove p index items) (node n) =
      some (node (recover_remove_items K index (length items) n))
  redo_page _ _ = none

  -- A page in the buffer pool, with the log sequence number of its frame.
  pub record Stored : Type 0 where
    pub page : Page K
    pub lsn : ℕ

  abbrev pub put : (ℕ → Stored) → ℕ → Page K → ℕ → Stored
  put store p page q = if p == q then record (store q) { page = page } else store q

  -- The loop of `__redo`, over the entries as they are read: whether it came to the end, the pages
  -- and the frames that were changed. `readable` says which pages the buffer pool can read.
  unfoldable pub redo_loop :
      (ℕ → Bool)
      → ℕ
      → List (LogEntry K)
      → (ℕ → Stored)
      → List ℕ
      → Option (Bool × (ℕ → Stored) × List ℕ)
  unfolding redo_page
  redo_loop readable lsn [] store frames = some (true, store, frames)
  redo_loop readable lsn (e ∷ entries) store frames = elim (readable (page_num e)) [
    | false ↦ some (false, store, frames)
    | true ↦ elim (leb lsn (store (page_num e)).lsn) [
      | true ↦ redo_loop readable lsn entries store frames
      | false ↦ elim (redo_page e (store (page_num e)).page) [
        | none ↦ none
        | some page ↦
            redo_loop readable lsn entries (put store (page_num e) page) (page_num e ∷ frames)
      ]
    ]
  ]

  abbrev pub set_lsns : ℕ → List ℕ → (ℕ → Stored) → ℕ → Stored
  set_lsns lsn [] store q = store q
  set_lsns lsn (p ∷ frames) store q =
      if p == q then record (store q) { lsn = lsn } else set_lsns lsn frames store q

  abbrev pub after_redo : ℕ → Option (Bool × (ℕ → Stored) × List ℕ) → Option (Rc × (ℕ → Stored))
  after_redo lsn none = none
  after_redo lsn (some (true, store, frames)) = some (Rc.success, set_lsns lsn frames store)
  after_redo lsn (some (false, store, frames)) = some (Rc.success, store)

  -- `__redo` returns SUCCESS on either end of the loop.
  unfoldable pub redo :
      (ℕ → Bool) → ℕ → List (LogEntry K) → (ℕ → Stored) → Option (Rc × (ℕ → Stored))
  unfolding redo_loop
  redo readable lsn entries store = after_redo lsn (redo_loop readable lsn entries store [])

  abbrev pub on_node : (Node K → Option (Node K)) → ℕ → Index K → Option (Index K)
  on_node f p s = elim (s.pages p) [
    | node n ↦ elim (f n) [
      | none ↦ none
      | some n' ↦ some (record s { pages = write K s.pages p (node n') })
    ]
    | _ ↦ none
  ]

  -- `recover_remove_items` of an IndexNodeHandler that is no leaf's and no internal node's: its
  -- `__item_at` is a null pointer, so that only the removal of the last items does not move bytes.
  abbrev pub base_remove_items : ℕ → ℕ → Node K → Option (Node K)
  base_remove_items index num n =
      if ltb index (size K n - num)
      then none
      else some (with_items K (take (size K n - num) n.items) n)

  -- `recover_insert_items` of such a handler copies to a null pointer unless there is no item.
  abbrev pub base_insert_items : ℕ → List (Item K) → Node K → Option (Node K)
  base_insert_items index [] n = if ltb index (size K n) then none else some n
  base_insert_items index (x ∷ items) n = none

  -- `rollback` of an entry.
  unfoldable pub rollback_entry : LogEntry K → Index K → Option (Index K)
  rollback_entry (update_root_page p root old) s = elim (s.pages first_index_page) [
    | header now ↦
        some (record s { pages = write K s.pages first_index_page (header old); root_page = old })
    | _ ↦ none
  ]
  rollback_entry (set_parent_page p parent old) s = on_node (λ n. some (with_parent K old n)) p s
  rollback_entry (leaf_init_empty p) s = some s
  rollback_entry (leaf_set_next_page p next old) s = on_node (λ n. some (with_next K old n)) p s
  rollback_entry (internal_init_empty p) s = some s
  rollback_entry (internal_create_new_root p first_page key page) s = some s
  rollback_entry (internal_update_key p index key old) s =
      on_node
        (λ n. elim (get_elem? n.items index) [
          | none ↦ none
          | some x ↦ some (with_items K (set n.items index (old, x.1)) n)
        ])
        p s
  rollback_entry (node_insert p index items) s =
      on_node (base_remove_items index (length items)) p s
  rollback_entry (node_remove p index items) s = on_node (base_insert_items index items) p s

  -- The entries from the last one on.
  unfoldable pub rollback_entries : List (LogEntry K) → Index K → Option (Index K)
  unfolding rollback_entry
  rollback_entries [] s = some s
  rollback_entries (e ∷ entries) s = elim (rollback_entry e s) [
    | none ↦ none
    | some s' ↦ rollback_entries entries s'
  ]

  unfoldable pub rollback : Index K → Option (Index K)
  unfolding rollback_entries
  rollback s = elim (rollback_entries (reverse s.log) s) [
    | none ↦ none
    | some s' ↦ some (record s' { log = [] })
  ]
