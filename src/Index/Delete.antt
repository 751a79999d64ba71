-- ===== src/Index/Delete.antt =====
-- BplusTreeHandler: deletion (bplus_tree.cpp).
use miniob4cqu_db_exp.Common.{
  ℕ, zero, suc, ◌+◌, ◌-◌, ◌/◌, Bool, true, false, Rc, none, some, [], ◌∷◌, ◌++◌, ltb, leb, ◌==◌,
  if◌then◌else◌,
}
use miniob4cqu_db_exp.Common.Step.{
  Step, Outcome, done, failed, crash, ◌>>=◌, ◌>>◌, return, fail, ignore,
}
use miniob4cqu_db_exp.Index.Page.{IndexKeys, Key, Index}
use miniob4cqu_db_exp.Index.Node.{
  get_page, load, size, key_at, value_at, set_parent_page_num, remove,
}
use miniob4cqu_db_exp.Index.Leaf
use miniob4cqu_db_exp.Index.Internal
use miniob4cqu_db_exp.Index.Tree.{Sizes, max_size, update_root_page_num, find_leaf}

module _ (K : IndexKeys) (sizes : Sizes) where
  abbrev pub min_size : Bool → ℕ
  min_size leaf = max_size K sizes leaf - max_size K sizes leaf / 2

  -- LatchMemo::dispose_page
  unfoldable pub dispose_page : ℕ → Step (Index K) (Unit {0})
  dispose_page p s = done tt (record s { disposed = s.disposed ++ p ∷ [] })

  unfoldable pub adjust_root : ℕ → Step (Index K) (Unit {0})
  unfolding get_page load value_at set_parent_page_num update_root_page_num dispose_page
  adjust_root p = do
    n ← load K p
    elim n.is_leaf [
      | true ↦ elim (ltb 0 (size K n)) [
        | true ↦ return tt
        | false ↦ do update_root_page_num K sizes none; dispose_page p
      ]
      | false ↦ do
        c ← value_at K p 0
        get_page K c
        set_parent_page_num K c none
        update_root_page_num K sizes (some c)
        dispose_page p
    ]

  unfoldable pub redistribute : Bool → ℕ → ℕ → ℕ → ℕ → Step (Index K) (Unit {0})
  unfolding key_at Leaf.move_first_to_end Leaf.move_last_to_front Internal.move_first_to_end
      Internal.move_last_to_front Internal.set_key_at
  redistribute leaf neighbor p parent index = elim (index == 0) [
    | true ↦ do
      ignore (
          if leaf
          then Leaf.move_first_to_end K neighbor p
          else Internal.move_first_to_end K neighbor p)
      key ← key_at K neighbor 0
      Internal.set_key_at K parent (index + 1) key
    | false ↦ do
      ignore (
          if leaf
          then Leaf.move_last_to_front K neighbor p
          else Internal.move_last_to_front K neighbor p)
      key ← key_at K p 0
      Internal.set_key_at K parent index key
  ]

  -- `coalesce` of the pages `left` and `right`, whose index in the parent is `index`; `up` checks
  -- the parent.
  unfoldable pub coalesce :
      Bool → (ℕ → Step (Index K) (Unit {0})) → ℕ → ℕ → ℕ → ℕ → Step (Index K) (Unit {0})
  unfolding load remove Leaf.move_to Leaf.set_next_page Internal.move_to dispose_page
  coalesce leaf up left right parent index = do
    remove K parent index
    if leaf then Leaf.move_to K right left else Internal.move_to K right left
    elim leaf [
      | true ↦ do n ← load K right; Leaf.set_next_page K left n.next_brother
      | false ↦ return tt
    ]
    dispose_page right
    up parent

  unfoldable pub coalesce_or_redistribute : Bool → ℕ → ℕ → Step (Index K) (Unit {0})
  unfolding get_page load key_at value_at Internal.lookup adjust_root redistribute coalesce
  coalesce_or_redistribute leaf zero p = λ s. crash
  coalesce_or_redistribute leaf (suc fuel) p = do
    n ← load K p
    elim (leb (min_size leaf) (size K n)) [
      | true ↦ return tt
      | false ↦ elim n.parent [
        | none ↦ elim (ltb 1 (size K n)) [ true ↦ return tt | false ↦ ignore (adjust_root p) ]
        | some parent ↦ do
          get_page K parent
          above ← load K parent
          last ← key_at K p (size K n - 1)
          let index = (Internal.lookup K above last).0
          here ← value_at K parent index
          elim (here == p) [
            | false ↦ λ s. crash
            | true ↦ do
              neighbor ← value_at K parent (if index == 0 then 1 else index - 1)
              get_page K neighbor
              m ← load K neighbor
              elim (ltb (max_size K sizes leaf) (size K n + size K m)) [
                | true ↦ redistribute leaf neighbor p parent index
                | false ↦ elim (index == 0) [
                  | true ↦
                      coalesce leaf (coalesce_or_redistribute false fuel) p neighbor parent
                        (index + 1)
                  | false ↦
                      coalesce leaf (coalesce_or_redistribute false fuel) neighbor p parent index
                ]
              ]
          ]
      ]
    ]

  unfoldable pub delete_entry_internal : ℕ → ℕ → Key K → Step (Index K) (Unit {0})
  unfolding load Leaf.remove_key coalesce_or_redistribute
  delete_entry_internal fuel p key = do
    remove_count ← Leaf.remove_key K p key
    elim (remove_count == 0) [
      | true ↦ fail Rc.record_not_exist
      | false ↦ do
        n ← load K p
        elim (leb (min_size true) (size K n)) [
          | true ↦ return tt
          | false ↦ coalesce_or_redistribute true fuel p
        ]
    ]

  abbrev pub is_empty_code : Rc → Bool
  is_empty_code Rc.empty = true
  is_empty_code _ = false

  -- An empty tree is reported as a missing record.
  abbrev pub not_exist_if_empty : Outcome (Index K) ℕ → Outcome (Index K) ℕ
  not_exist_if_empty (done p s) = done p s
  not_exist_if_empty (failed rc s) = failed (if is_empty_code rc then Rc.record_not_exist else rc) s
  not_exist_if_empty crash = crash

  -- `delete_entry`, behind the making of the key.
  unfoldable pub delete_entry : ℕ → Key K → Step (Index K) (Unit {0})
  unfolding find_leaf delete_entry_internal
  delete_entry fuel key = do
    leaf ← λ s. not_exist_if_empty (find_leaf K sizes fuel key s)
    delete_entry_internal fuel leaf key
