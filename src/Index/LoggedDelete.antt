-- ===== src/Index/LoggedDelete.antt =====
-- Deletion logs what it changes.
use miniob4cqu_db_exp.Common.{
  ℕ, zero, suc, ◌+◌, ◌-◌, refl, sym, Bool, true, false, Rc, none, some, [], ltb, leb, ◌==◌,
}
use mathlib.Core.List.{append-nil}
use miniob4cqu_db_exp.Common.Step.{Step, Outcome, done, failed, crash}
use miniob4cqu_db_exp.Index.Page.{IndexKeys, Key, Index}
use miniob4cqu_db_exp.Index.Node.{size}
use miniob4cqu_db_exp.Index.Logged.{
  Ends, Logs, Logs-bind, Logs-return, Logs-crash, Logs-fail, Logs-ignore, if-Logs, case-Logs,
  option-Logs,
}
use miniob4cqu_db_exp.Index.LoggedNode.{
  get_page-Logs, load-Logs, key_at-Logs, value_at-Logs, set_parent_page_num-Logs, remove-Logs,
}
use miniob4cqu_db_exp.Index.LoggedLeaf as LoggedLeaf
use miniob4cqu_db_exp.Index.LoggedInternal as LoggedInternal
use miniob4cqu_db_exp.Index.LoggedTree.{update_root_page_num-Logs, find_leaf-Logs}
use miniob4cqu_db_exp.Index.Internal
use miniob4cqu_db_exp.Index.Tree.{Sizes, max_size, update_root_page_num, find_leaf}
use miniob4cqu_db_exp.Index.Delete.{
  min_size, dispose_page, adjust_root, redistribute, coalesce, coalesce_or_redistribute,
  delete_entry_internal, not_exist_if_empty, delete_entry,
}

module _ (K : IndexKeys) (sizes : Sizes) where
  dispose_page-Logs : (p : ℕ) → Logs K (dispose_page K sizes p)
  unfolding dispose_page
  dispose_page-Logs p s = record { entries = []; log = sym (append-nil s.log); pages = λ q. refl }

  pub adjust_root-Logs : (p : ℕ) → Logs K (adjust_root K sizes p)
  unfolding adjust_root
  adjust_root-Logs p = Logs-bind K _ _ (load-Logs K p) (λ n.
      case-Logs K n.is_leaf _ _
        (case-Logs K (ltb 0 (size K n)) _ _ (Logs-return K tt) (
          Logs-bind K (update_root_page_num K sizes none) _ (update_root_page_num-Logs K sizes none)
            (λ u. dispose_page-Logs p)))
        (Logs-bind K _ _ (value_at-Logs K p 0) (λ c. Logs-bind K _ _ (get_page-Logs K c) (λ u.
          Logs-bind K _ _ (set_parent_page_num-Logs K c none) (λ v.
            Logs-bind K (update_root_page_num K sizes (some c)) _
              (update_root_page_num-Logs K sizes (some c)) (λ w. dispose_page-Logs p))))))

  pub redistribute-Logs :
      (leaf : Bool) (neighbor p parent index : ℕ)
      → Logs K (redistribute K sizes leaf neighbor p parent index)
  unfolding redistribute
  redistribute-Logs leaf neighbor p parent index =
      case-Logs K (index == 0) _ _
        (Logs-bind K _ _
          (Logs-ignore K _ (
            if-Logs K leaf _ _ (LoggedLeaf.move_first_to_end-Logs K neighbor p)
              (LoggedInternal.move_first_to_end-Logs K neighbor p)))
          (λ u.
            Logs-bind K _ _ (key_at-Logs K neighbor 0)
              (λ key. LoggedInternal.set_key_at-Logs K parent (index + 1) key)))
        (Logs-bind K _ _
          (Logs-ignore K _ (
            if-Logs K leaf _ _ (LoggedLeaf.move_last_to_front-Logs K neighbor p)
              (LoggedInternal.move_last_to_front-Logs K neighbor p)))
          (λ u.
            Logs-bind K _ _ (key_at-Logs K p 0)
              (λ key. LoggedInternal.set_key_at-Logs K parent index key)))

  pub coalesce-Logs :
      (leaf : Bool) (up : ℕ → Step (Index K) (Unit {0})) (left right parent index : ℕ)
      → ((q : ℕ) → Logs K (up q))
      → Logs K (coalesce K sizes leaf up left right parent index)
  unfolding coalesce
  coalesce-Logs leaf up left right parent index h =
      Logs-bind K _ _ (remove-Logs K parent index) (λ u.
        Logs-bind K _ _
          (if-Logs K leaf _ _ (LoggedLeaf.move_to-Logs K right left)
            (LoggedInternal.move_to-Logs K right left))
          (λ v.
            Logs-bind K _ _
              (case-Logs K leaf _ _
                (Logs-bind K _ _ (load-Logs K right)
                  (λ n. LoggedLeaf.set_next_page-Logs K left n.next_brother))
                (Logs-return K tt))
              (λ w.
                Logs-bind K (dispose_page K sizes right) _ (dispose_page-Logs right)
                  (λ x. h parent))))

  pub coalesce_or_redistribute-Logs :
      (leaf : Bool) (fuel p : ℕ) → Logs K (coalesce_or_redistribute K sizes leaf fuel p)
  unfolding coalesce_or_redistribute
  coalesce_or_redistribute-Logs leaf zero p = Logs-crash K (Unit {0})
  coalesce_or_redistribute-Logs leaf (suc fuel) p = Logs-bind K _ _ (load-Logs K p) (λ n.
      case-Logs K (leb (min_size K sizes leaf) (size K n)) _ _ (Logs-return K tt) (
        option-Logs K n.parent _ _
          (case-Logs K (ltb 1 (size K n)) _ _ (Logs-return K tt)
            (Logs-ignore K _ (adjust_root-Logs p)))
          (λ parent. Logs-bind K _ _ (get_page-Logs K parent) (λ u.
            Logs-bind K _ _ (load-Logs K parent) (λ above.
              Logs-bind K _ _ (key_at-Logs K p (size K n - 1)) (λ last.
                Logs-bind K _ _ (value_at-Logs K parent (Internal.lookup K above last).0) (λ here.
                  case-Logs K (here == p) _ _
                    (Logs-bind K _ _ (value_at-Logs K parent _) (λ neighbor.
                      Logs-bind K _ _ (get_page-Logs K neighbor) (λ v.
                        Logs-bind K _ _ (load-Logs K neighbor) (λ m.
                          case-Logs K (ltb (max_size K sizes leaf) (size K n + size K m)) _ _
                            (redistribute-Logs leaf neighbor p parent
                              (Internal.lookup K above last).0)
                            (case-Logs K ((Internal.lookup K above last).0 == 0) _ _
                              (coalesce-Logs leaf _ p neighbor parent _
                                (coalesce_or_redistribute-Logs false fuel))
                              (coalesce-Logs leaf _ neighbor p parent _
                                (coalesce_or_redistribute-Logs false fuel)))))))
                    (Logs-crash K (Unit {0})))))))))

  delete_entry_internal-Logs :
      (fuel p : ℕ) (key : Key K) → Logs K (delete_entry_internal K sizes fuel p key)
  unfolding delete_entry_internal
  delete_entry_internal-Logs fuel p key =
      Logs-bind K _ _ (LoggedLeaf.remove_key-Logs K p key) (λ count.
        case-Logs K (count == 0) _ _ (Logs-fail K (Unit {0}) Rc.record_not_exist) (
          Logs-bind K _ _ (load-Logs K p) (λ n.
            case-Logs K (leb (min_size K sizes true) (size K n)) _ _ (Logs-return K tt)
              (coalesce_or_redistribute-Logs true fuel p))))

  not_exist-Ends :
      (s : Index K) (o : Outcome (Index K) ℕ) → Ends K s o → Ends K s (not_exist_if_empty K sizes o)
  not_exist-Ends s (done p t) h = h
  not_exist-Ends s crash h = h
  not_exist-Ends s (failed rc t) h = h

  pub delete_entry-Logs : (fuel : ℕ) (key : Key K) → Logs K (delete_entry K sizes fuel key)
  unfolding delete_entry
  delete_entry-Logs fuel key =
      Logs-bind K (λ s. not_exist_if_empty K sizes (find_leaf K sizes fuel key s)) _
        (λ s. not_exist-Ends s (find_leaf K sizes fuel key s) (find_leaf-Logs K sizes fuel key s))
        (λ leaf. delete_entry_internal-Logs fuel leaf key)
