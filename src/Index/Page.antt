-- ===== src/Index/Page.antt =====
-- Pages of an index file, the entries of its log, and the state of one mini transaction
-- (bplus_tree.h, bplus_tree_log_entry.h, latch_memo.cpp).
use miniob4cqu_db_exp.Common.{ℕ, Bool, Option, List, [], ◌∷◌, ◌++◌, ◌==◌, if◌then◌else◌, KeyOrder}
use miniob4cqu_db_exp.Common.Step.{Step, done}

-- RID
pub record Rid : Type 0 where
  pub page_num : ℕ
  pub slot_num : ℕ

-- The bytes behind a key: a RID in a leaf, a page number in an internal node.
pub data Slot : Type 0 where
  rid : Rid → Slot
  child : ℕ → Slot

-- The keys of an index, with the key of zeros that `create_new_root` writes.
pub record IndexKeys : Type 1 where
  pub order : KeyOrder
  pub zero_key : order.Key

module _ (K : IndexKeys) where
  abbrev pub Key : Type 0
  Key = K.order.Key

  abbrev pub Item : Type 0
  Item = Key × Slot

  -- IndexNode with its array; BP_INVALID_PAGE_NUM is `none`. `next_brother` is a leaf's.
  pub record Node : Type 0 where
    pub is_leaf : Bool
    pub parent : Option ℕ
    pub next_brother : Option ℕ
    pub items : List Item

  -- The header page holds the number of the root page.
  pub data Page : Type 0 where
    unused : Page
    header : Option ℕ → Page
    node : Node → Page

  pub data LogEntry : Type 0 where
    update_root_page : ℕ → Option ℕ → Option ℕ → LogEntry
    set_parent_page : ℕ → Option ℕ → Option ℕ → LogEntry
    leaf_init_empty : ℕ → LogEntry
    leaf_set_next_page : ℕ → Option ℕ → Option ℕ → LogEntry
    internal_init_empty : ℕ → LogEntry
    internal_create_new_root : ℕ → ℕ → Key → ℕ → LogEntry
    internal_update_key : ℕ → ℕ → Key → Key → LogEntry
    node_insert : ℕ → ℕ → List Item → LogEntry
    node_remove : ℕ → ℕ → List Item → LogEntry

  -- `free` has the pages that the buffer pool will allocate; `disposed` those that the latch memo
  -- gives back at the end.
  pub record Index : Type 0 where
    pub pages : ℕ → Page
    pub free : List ℕ
    pub root_page : Option ℕ
    pub log : List LogEntry
    pub disposed : List ℕ

  abbrev pub write : (ℕ → Page) → ℕ → Page → ℕ → Page
  write pages p page q = if p == q then page else pages q

  abbrev pub put_page : ℕ → Page → Step Index (Unit {0})
  put_page p page s = done tt (record s { pages = write s.pages p page })

  -- `append_log_entry`
  abbrev pub append_log_entry : LogEntry → Step Index (Unit {0})
  append_log_entry e s = done tt (record s { log = s.log ++ e ∷ [] })
