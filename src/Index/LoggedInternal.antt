-- ===== src/Index/LoggedInternal.antt =====
-- The handlers of internal nodes log what they change.
use miniob4cqu_db_exp.Common.{
  ℕ, ◌-◌, ◌/◌, refl, false, some, List, [], ◌∷◌, drop, set, inl, inr, List-cases,
}
use miniob4cqu_db_exp.Index.Page.{
  IndexKeys, Key, Item, node, child, internal_init_empty, internal_create_new_root,
  internal_update_key,
}
use miniob4cqu_db_exp.Index.Node.{size, with_items, empty_node}
use miniob4cqu_db_exp.Index.Replay.{redo_page}
use miniob4cqu_db_exp.Index.Logged.{Logged-write, Logs, Logs-bind, Logs-return}
use miniob4cqu_db_exp.Index.LoggedNode.{
  get_page-Logs, load-Logs, load-cases, item_at-cases, item_at-Logs, page_of-Logs,
  set_parent_page_num-Logs, insert_logged-Logs, remove_logged-Logs, shrink_logged-Logs, remove-Logs,
}
use miniob4cqu_db_exp.Index.Internal
use miniob4cqu_db_exp.Index.Internal.{root_items}

module _ (K : IndexKeys) where
  pub init_empty-Logs : (p : ℕ) → Logs K (Internal.init_empty K p)
  unfolding Internal.init_empty redo_page
  init_empty-Logs p s = Logged-write K s (internal_init_empty p) (node (empty_node K false)) refl

  pub create_new_root-Logs :
      (p first_page : ℕ) (key : Key K) (page : ℕ)
      → Logs K (Internal.create_new_root K p first_page key page)
  unfolding Internal.create_new_root redo_page
  create_new_root-Logs p first_page key page s = elim (load-cases K p s) [
    | inl stuck ↦ rw stuck tt
    | inr (n, at, run) ↦ elim (List-cases n.items) [
      | inl h ↦
          rw (run, h)
            (Logged-write K s (internal_create_new_root p first_page key page)
              (node (with_items K (root_items K first_page key page) n))
              (rw at (rw (h, redo_page) refl)))
      | inr (x, items, h) ↦ rw (run, h) tt
    ]
  ]

  pub insert-Logs : (p : ℕ) (key : Key K) (page : ℕ) → Logs K (Internal.insert K p key page)
  unfolding Internal.insert
  insert-Logs p key page =
      Logs-bind K _ _ (load-Logs K p)
        (λ n. insert_logged-Logs K p (Internal.lookup K n key).1 ((key, child page) ∷ []))

  pub set_key_at-Logs : (p index : ℕ) (key : Key K) → Logs K (Internal.set_key_at K p index key)
  unfolding Internal.set_key_at redo_page
  set_key_at-Logs p index key s = elim (load-cases K p s) [
    | inl stuck ↦ rw stuck tt
    | inr (n, at, run) ↦ elim (item_at-cases K n.items index s) [
      | inl past ↦ rw (run, past) tt
      | inr (x, here, found) ↦
          rw (run, found)
            (Logged-write K s (internal_update_key p index key x.0)
              (node (with_items K (set n.items index (key, x.1)) n))
              (rw at (rw (here, redo_page) refl)))
    ]
  ]

  pub set_parents-Logs : (p : ℕ) (items : List (Item K)) → Logs K (Internal.set_parents K p items)
  unfolding Internal.set_parents
  set_parents-Logs p [] = Logs-return K tt
  set_parents-Logs p (x ∷ items) = Logs-bind K _ _ (page_of-Logs K x.1) (λ c.
      Logs-bind K _ _ (get_page-Logs K c) (λ u.
        Logs-bind K _ _ (set_parent_page_num-Logs K c (some p)) (λ v. set_parents-Logs p items)))

  pub insert_items-Logs :
      (p index : ℕ) (items : List (Item K)) → Logs K (Internal.insert_items K p index items)
  unfolding Internal.insert_items
  insert_items-Logs p index items =
      Logs-bind K _ _ (insert_logged-Logs K p index items) (λ u. set_parents-Logs p items)

  pub append-Logs : (p : ℕ) (items : List (Item K)) → Logs K (Internal.append K p items)
  unfolding Internal.append
  append-Logs p items = Logs-bind K _ _ (load-Logs K p) (λ n. insert_items-Logs p (size K n) items)

  pub move_half_to-Logs : (p other : ℕ) → Logs K (Internal.move_half_to K p other)
  unfolding Internal.move_half_to
  move_half_to-Logs p other = Logs-bind K _ _ (load-Logs K p) (λ n.
      Logs-bind K _ _ (append-Logs other (drop (size K n / 2) n.items))
        (λ u. shrink_logged-Logs K p (size K n / 2)))

  pub move_to-Logs : (p other : ℕ) → Logs K (Internal.move_to K p other)
  unfolding Internal.move_to
  move_to-Logs p other =
      Logs-bind K _ _ (load-Logs K p) (λ n.
        Logs-bind K _ _ (append-Logs other n.items) (λ u. remove_logged-Logs K p 0 (size K n)))

  pub move_first_to_end-Logs : (p other : ℕ) → Logs K (Internal.move_first_to_end K p other)
  unfolding Internal.move_first_to_end
  move_first_to_end-Logs p other = Logs-bind K _ _ (load-Logs K p) (λ n.
      Logs-bind K _ _ (item_at-Logs K n.items 0)
        (λ x. Logs-bind K _ _ (append-Logs other (x ∷ [])) (λ u. remove-Logs K p 0)))

  pub move_last_to_front-Logs : (p other : ℕ) → Logs K (Internal.move_last_to_front K p other)
  unfolding Internal.move_last_to_front
  move_last_to_front-Logs p other = Logs-bind K _ _ (load-Logs K p) (λ n.
      Logs-bind K _ _ (item_at-Logs K n.items (size K n - 1)) (λ x.
        Logs-bind K _ _ (insert_items-Logs other 0 (x ∷ []))
          (λ u. shrink_logged-Logs K p (size K n - 1))))
