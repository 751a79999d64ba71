-- ===== src/Index/LoggedLeaf.antt =====
-- The handlers of leaves log what they change.
use miniob4cqu_db_exp.Common.{ℕ, ◌-◌, ◌/◌, refl, true, Option, List, [], ◌∷◌, drop, inl, inr}
use miniob4cqu_db_exp.Index.Page.{
  IndexKeys, Key, Item, node, rid, Rid, leaf_init_empty, leaf_set_next_page,
}
use miniob4cqu_db_exp.Index.Node.{size, with_next, empty_node}
use miniob4cqu_db_exp.Index.Replay.{redo_page}
use miniob4cqu_db_exp.Index.Logged.{Logged-write, Logs, Logs-bind, Logs-return, case-Logs}
use miniob4cqu_db_exp.Index.LoggedNode.{
  load-Logs, load-cases, item_at-Logs, insert_logged-Logs, shrink_logged-Logs, remove-Logs,
}
use miniob4cqu_db_exp.Index.Leaf

module _ (K : IndexKeys) where
  pub init_empty-Logs : (p : ℕ) → Logs K (Leaf.init_empty K p)
  unfolding Leaf.init_empty redo_page
  init_empty-Logs p s = Logged-write K s (leaf_init_empty p) (node (empty_node K true)) refl

  pub set_next_page-Logs : (p : ℕ) (next : Option ℕ) → Logs K (Leaf.set_next_page K p next)
  unfolding Leaf.set_next_page redo_page
  set_next_page-Logs p next s = elim (load-cases K p s) [
    | inl stuck ↦ rw stuck tt
    | inr (n, at, run) ↦ rw run (
        Logged-write K s (leaf_set_next_page p next n.next_brother) (node (with_next K next n))
          (rw at refl))
  ]

  pub insert-Logs : (p index : ℕ) (key : Key K) (r : Rid) → Logs K (Leaf.insert K p index key r)
  unfolding Leaf.insert
  insert-Logs p index key r = insert_logged-Logs K p index ((key, rid r) ∷ [])

  pub remove_key-Logs : (p : ℕ) (key : Key K) → Logs K (Leaf.remove_key K p key)
  unfolding Leaf.remove_key
  remove_key-Logs p key = Logs-bind K _ _ (load-Logs K p) (λ n.
      case-Logs K (Leaf.lookup K n key).1 _ _
        (Logs-bind K _ _ (remove-Logs K p (Leaf.lookup K n key).0) (λ u. Logs-return K {A = ℕ} 1))
        (Logs-return K {A = ℕ} 0))

  pub append-Logs : (p : ℕ) (items : List (Item K)) → Logs K (Leaf.append K p items)
  unfolding Leaf.append
  append-Logs p items =
      Logs-bind K _ _ (load-Logs K p) (λ n. insert_logged-Logs K p (size K n) items)

  pub move_half_to-Logs : (p other : ℕ) → Logs K (Leaf.move_half_to K p other)
  unfolding Leaf.move_half_to
  move_half_to-Logs p other = Logs-bind K _ _ (load-Logs K p) (λ n.
      Logs-bind K _ _ (append-Logs other (drop (size K n / 2) n.items))
        (λ u. shrink_logged-Logs K p (size K n / 2)))

  pub move_first_to_end-Logs : (p other : ℕ) → Logs K (Leaf.move_first_to_end K p other)
  unfolding Leaf.move_first_to_end
  move_first_to_end-Logs p other = Logs-bind K _ _ (load-Logs K p) (λ n.
      Logs-bind K _ _ (item_at-Logs K n.items 0)
        (λ x. Logs-bind K _ _ (append-Logs other (x ∷ [])) (λ u. remove-Logs K p 0)))

  pub move_last_to_front-Logs : (p other : ℕ) → Logs K (Leaf.move_last_to_front K p other)
  unfolding Leaf.move_last_to_front
  move_last_to_front-Logs p other = Logs-bind K _ _ (load-Logs K p) (λ n.
      Logs-bind K _ _ (item_at-Logs K n.items (size K n - 1)) (λ x.
        Logs-bind K _ _ (insert_logged-Logs K other 0 (x ∷ []))
          (λ u. remove-Logs K p (size K n - 1))))

  pub move_to-Logs : (p other : ℕ) → Logs K (Leaf.move_to K p other)
  unfolding Leaf.move_to
  move_to-Logs p other = Logs-bind K _ _ (load-Logs K p) (λ n.
      Logs-bind K _ _ (append-Logs other n.items) (λ u.
        Logs-bind K _ _ (set_next_page-Logs other n.next_brother) (λ v. shrink_logged-Logs K p 0)))
