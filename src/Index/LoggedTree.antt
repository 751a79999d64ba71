-- ===== src/Index/LoggedTree.antt =====
-- Insertion logs what it changes.
use Prim.Native.Nat.{Ordering}
use miniob4cqu_db_exp.Common.{
  ℕ, zero, suc, ◌-◌, ◌≡◌, refl, Bool, true, false, Rc, Option, some, ltb,
}
use miniob4cqu_db_exp.Common.Step.{Step, failed, and_then}
use miniob4cqu_db_exp.Index.Page.{
  IndexKeys, Key, Node, Page, unused, header, node, Rid, Index, update_root_page,
}
use miniob4cqu_db_exp.Index.Node.{size, set_parent_page_num}
use miniob4cqu_db_exp.Index.Replay.{redo_page}
use miniob4cqu_db_exp.Index.Logged.{
  Ends, Logged-refl, Logged-write, Logs, Logs-bind, Logs-return, Logs-crash, Logs-fail, Logs-ignore,
  if-Logs, case-Logs, option-Logs, option-Ends,
}
use miniob4cqu_db_exp.Index.LoggedNode.{
  get_page-Logs, load-Logs, allocate_page-Logs, item_at-Logs, key_at-Logs, page_of-Logs,
  set_parent_page_num-Logs,
}
use miniob4cqu_db_exp.Index.LoggedLeaf as LoggedLeaf
use miniob4cqu_db_exp.Index.LoggedInternal as LoggedInternal
use miniob4cqu_db_exp.Index.Leaf
use miniob4cqu_db_exp.Index.Internal
use miniob4cqu_db_exp.Index.Tree.{
  Sizes, max_size, first_index_page, update_root_page_num, find_leaf_from, find_leaf_internal,
  child_of, find_leaf, split, grow_root, insert_into_half, insert_entry_into_parent,
  insert_into_full_leaf, insert_entry_into_leaf_node, create_new_tree, insert_entry,
}

module _ (K : IndexKeys) (sizes : Sizes) where
  pub update_root_page_num-Logs : (root : Option ℕ) → Logs K (update_root_page_num K sizes root)
  unfolding update_root_page_num redo_page
  update_root_page_num-Logs root s = by_page (s.pages first_index_page) refl
    where
      by_page :
          (page : Page K)
          → s.pages first_index_page ≡ page
          → Ends K {A = Unit {0}} s (update_root_page_num K sizes root s)
      by_page unused h = rw (h, update_root_page_num) tt
      by_page (node n) h = rw (h, update_root_page_num) tt
      by_page (header old) h =
          rw (h, update_root_page_num)
            (let l =
                Logged-write K s (update_root_page first_index_page root old) (header root)
                  (rw (h, redo_page) refl) in
              record { entries = l.entries; log = l.log; pages = l.pages })

  pub find_leaf_from-Logs :
      (child_page : Node K → Step (Index K) ℕ) (fuel p : ℕ)
      → ((n : Node K) → Logs K (child_page n))
      → Logs K (find_leaf_from K sizes child_page fuel p)
  unfolding find_leaf_from
  find_leaf_from-Logs child_page zero p h = Logs-crash K ℕ
  find_leaf_from-Logs child_page (suc fuel) p h = Logs-bind K _ _ (get_page-Logs K p) (λ u.
      Logs-bind K _ _ (load-Logs K p) (λ n.
        case-Logs K n.is_leaf _ _ (Logs-return K p)
          (Logs-bind K _ _ (h n) (λ c. find_leaf_from-Logs child_page fuel c h))))

  pub find_leaf-Logs : (fuel : ℕ) (key : Key K) → Logs K (find_leaf K sizes fuel key)
  unfolding find_leaf find_leaf_internal child_of
  find_leaf-Logs fuel key s =
      option-Ends K s s.root_page (failed Rc.empty s)
        (λ root. find_leaf_from K sizes (child_of K sizes key) fuel root s) (Logged-refl K s)
        (λ root.
          find_leaf_from-Logs (child_of K sizes key) fuel root
            (λ n.
              Logs-bind K _ _ (item_at-Logs K n.items (Internal.lookup K n key).0)
                (λ x. page_of-Logs K x.1))
            s)

  pub split-Logs : (leaf : Bool) (p : ℕ) → Logs K (split K sizes leaf p)
  unfolding split
  split-Logs leaf p = Logs-bind K _ _ (allocate_page-Logs K) (λ new.
      Logs-bind K _ _
        (if-Logs K leaf _ _ (LoggedLeaf.init_empty-Logs K new)
          (LoggedInternal.init_empty-Logs K new))
        (λ u. Logs-bind K _ _ (load-Logs K p) (λ n.
          Logs-bind K _ _ (set_parent_page_num-Logs K new n.parent) (λ v.
            Logs-bind K _ _
              (Logs-ignore K _ (
                if-Logs K leaf _ _ (LoggedLeaf.move_half_to-Logs K p new)
                  (LoggedInternal.move_half_to-Logs K p new)))
              (λ w. Logs-return K new)))))

  pub grow_root-Logs : (p new : ℕ) (key : Key K) → Logs K (grow_root K sizes p new key)
  unfolding grow_root
  grow_root-Logs p new key = Logs-bind K _ _ (allocate_page-Logs K) (λ root.
      Logs-bind K (Internal.init_empty K root) _ (LoggedInternal.init_empty-Logs K root) (λ u.
        Logs-bind K (Internal.create_new_root K root p key new) _
          (LoggedInternal.create_new_root-Logs K root p key new)
          (λ v. Logs-bind K _ _ (set_parent_page_num-Logs K p (some root)) (λ w.
            Logs-bind K _ _ (set_parent_page_num-Logs K new (some root))
              (λ x. update_root_page_num-Logs (some root))))))

  insert_below-Logs :
      (parent new : ℕ) (key : Key K)
      → Logs K (λ s.
        and_then
          (Internal.insert K parent key new s)
          (λ u. set_parent_page_num K new (some parent)))
  insert_below-Logs parent new key =
      Logs-bind K _ _ (LoggedInternal.insert-Logs K parent key new)
        (λ u. set_parent_page_num-Logs K new (some parent))

  pub insert_into_half-Logs :
      (parent new_parent new : ℕ) (key : Key K)
      → Logs K (insert_into_half K sizes parent new_parent new key)
  unfolding insert_into_half
  insert_into_half-Logs parent new_parent new key =
      Logs-bind K _ _ (key_at-Logs K new_parent 0)
        (λ middle. by_order (K.order.compare_keys key middle))
    where
      by_order :
          (o : Ordering)
          → Logs K {A = Unit {0}} (elim o as (λ x. Step (Index K) (Unit {0})) [
            | Ordering.gt ↦ λ s.
                and_then
                  (Internal.insert K new_parent key new s)
                  (λ u. set_parent_page_num K new (some new_parent))
            | _ ↦ λ s.
                and_then
                  (Internal.insert K parent key new s)
                  (λ u. set_parent_page_num K new (some parent))
          ])
      by_order Ordering.gt = insert_below-Logs new_parent new key
      by_order Ordering.lt = insert_below-Logs parent new key
      by_order Ordering.eq = insert_below-Logs parent new key

  pub insert_entry_into_parent-Logs :
      (fuel p new : ℕ) (key : Key K) → Logs K (insert_entry_into_parent K sizes fuel p new key)
  unfolding insert_entry_into_parent
  insert_entry_into_parent-Logs zero p new key = Logs-crash K (Unit {0})
  insert_entry_into_parent-Logs (suc fuel) p new key = Logs-bind K _ _ (load-Logs K p) (λ n.
      option-Logs K n.parent _ _ (grow_root-Logs p new key) (λ parent.
        Logs-bind K _ _ (get_page-Logs K parent) (λ u.
          Logs-bind K _ _ (load-Logs K parent) (λ above.
            case-Logs K (ltb (size K above) (max_size K sizes false)) _ _
              (insert_below-Logs parent new key)
              (Logs-bind K _ _ (split-Logs false parent) (λ new_parent.
                Logs-bind K _ _ (insert_into_half-Logs parent new_parent new key) (λ v.
                  Logs-bind K _ _ (key_at-Logs K new_parent 0)
                    (λ middle. insert_entry_into_parent-Logs fuel parent new_parent middle))))))))

  pub insert_into_full_leaf-Logs :
      (fuel p position : ℕ) (key : Key K) (r : Rid)
      → Logs K (insert_into_full_leaf K sizes fuel p position key r)
  unfolding insert_into_full_leaf
  insert_into_full_leaf-Logs fuel p position key r = Logs-bind K _ _ (split-Logs true p) (λ new.
      Logs-bind K _ _ (load-Logs K p) (λ n.
        Logs-bind K (Leaf.set_next_page K new n.next_brother) _
          (LoggedLeaf.set_next_page-Logs K new n.next_brother)
          (λ u. Logs-bind K _ _ (set_parent_page_num-Logs K new n.parent) (λ v.
            Logs-bind K (Leaf.set_next_page K p (some new)) _
              (LoggedLeaf.set_next_page-Logs K p (some new))
              (λ w.
                Logs-bind K _ _
                  (case-Logs K (ltb position (size K n)) _ _
                    (LoggedLeaf.insert-Logs K p position key r)
                    (LoggedLeaf.insert-Logs K new (position - size K n) key r))
                  (λ x.
                    Logs-bind K _ _ (key_at-Logs K new 0)
                      (λ middle. insert_entry_into_parent-Logs fuel p new middle)))))))

  pub insert_entry_into_leaf_node-Logs :
      (fuel p : ℕ) (key : Key K) (r : Rid)
      → Logs K (insert_entry_into_leaf_node K sizes fuel p key r)
  unfolding insert_entry_into_leaf_node
  insert_entry_into_leaf_node-Logs fuel p key r = Logs-bind K _ _ (load-Logs K p) (λ n.
      case-Logs K (Leaf.lookup K n key).1 _ _ (Logs-fail K (Unit {0}) Rc.record_duplicate_key) (
        case-Logs K (ltb (size K n) (max_size K sizes true)) _ _
          (LoggedLeaf.insert-Logs K p (Leaf.lookup K n key).0 key r)
          (insert_into_full_leaf-Logs fuel p (Leaf.lookup K n key).0 key r)))

  pub create_new_tree-Logs : (key : Key K) (r : Rid) → Logs K (create_new_tree K sizes key r)
  unfolding create_new_tree
  create_new_tree-Logs key r s =
      option-Ends K s s.root_page _ (λ root. failed Rc.internal s)
        (Logs-bind K _ _ (allocate_page-Logs K)
          (λ p. Logs-bind K (Leaf.init_empty K p) _ (LoggedLeaf.init_empty-Logs K p) (λ u.
            Logs-bind K (Leaf.insert K p 0 key r) _ (LoggedLeaf.insert-Logs K p 0 key r)
              (λ v. update_root_page_num-Logs (some p))))
          s)
        (λ root. Logged-refl K s)

  pub insert_entry-Logs :
      (fuel : ℕ) (key : Key K) (r : Rid) → Logs K (insert_entry K sizes fuel key r)
  unfolding insert_entry
  insert_entry-Logs fuel key r s =
      option-Ends K s s.root_page (create_new_tree K sizes key r s) _ (create_new_tree-Logs key r s)
        (λ root.
          Logs-bind K _ _ (find_leaf-Logs fuel key)
            (λ leaf. insert_entry_into_leaf_node-Logs fuel leaf key r) s)
