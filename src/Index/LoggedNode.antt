-- ===== src/Index/LoggedNode.antt =====
-- Each handler of a node logs what it changes.
use mathlib.Core.List.{append-nil}
use miniob4cqu_db_exp.Common.{
  ℕ, ◌+◌, ◌≡◌, refl, sym, ap, ◌∙◌, Rc, Option, none, some, List, [], ◌∷◌, ◌++◌, length, take, drop,
  get_elem?, ltb, Option-cases, ◌⊎◌, drop-add, drop-length, drop-length-take, inl, inr,
}
use miniob4cqu_db_exp.Common.Step.{done, failed, crash}
use miniob4cqu_db_exp.Index.Page.{
  IndexKeys, Item, Node, Page, unused, header, node, Slot, rid, child, Index, set_parent_page,
  node_insert, node_remove,
}
use miniob4cqu_db_exp.Index.Node.{
  get_page, load, allocate_page, item_at, key_at, page_of, value_at, size, with_parent, with_items,
  recover_insert_items, recover_remove_items, set_parent_page_num, insert_logged, remove_logged,
  shrink_logged, remove,
}
use miniob4cqu_db_exp.Index.Replay.{redo_page}
use miniob4cqu_db_exp.Index.Logged.{
  Logged-refl, Logged-write, Ends, Logs, Logs-bind, Logs-return, Logs-crash, if-Logs,
}

module _ (K : IndexKeys) where
  pub get_page-Logs : (p : ℕ) → Logs K (get_page K p)
  unfolding get_page
  get_page-Logs p s = by_page (s.pages p)
    where
      by_page :
          (page : Page K) → Ends K s (elim page [ unused ↦ failed Rc.ioerr_read s | _ ↦ done tt s ])
      by_page unused = Logged-refl K s
      by_page (header root) = Logged-refl K s
      by_page (node n) = Logged-refl K s

  pub load-Logs : (p : ℕ) → Logs K (load K p)
  unfolding load
  load-Logs p s = by_page (s.pages p)
    where
      by_page : (page : Page K) → Ends K s (elim page [ node n ↦ done n s | _ ↦ crash ])
      by_page unused = tt
      by_page (header root) = tt
      by_page (node n) = Logged-refl K s

  pub allocate_page-Logs : Logs K (allocate_page K)
  unfolding allocate_page
  allocate_page-Logs s = by_free s.free
    where
      by_free :
          (free : List ℕ)
          → Ends K s (elim free [
            | [] ↦ failed Rc.bufferpool_nobuf s
            | p ∷ free ↦ done p (record s { free = free })
          ])
      by_free [] = Logged-refl K s
      by_free (p ∷ free) = record { entries = []; log = sym (append-nil s.log); pages = λ q. refl }

  pub item_at-Logs : (items : List (Item K)) (index : ℕ) → Logs K (item_at K items index)
  unfolding item_at
  item_at-Logs items index s = by_item (get_elem? items index)
    where
      by_item : (o : Option (Item K)) → Ends K s (elim o [ none ↦ crash | some x ↦ done x s ])
      by_item none = tt
      by_item (some x) = Logged-refl K s

  pub item_at-cases :
      (items : List (Item K)) (index : ℕ) (s : Index K)
      → (item_at K items index s ≡ crash)
        ⊎ ((x : Item K) × (get_elem? items index ≡ some x) × (item_at K items index s ≡ done x s))
  unfolding item_at
  item_at-cases items index s = elim (Option-cases (get_elem? items index)) [
    | inl past ↦ inl (rw (past, item_at) refl)
    | inr (x, here) ↦ inr (x, here, rw (here, item_at) refl)
  ]

  pub page_of-Logs : (x : Slot) → Logs K (page_of K x)
  page_of-Logs (rid r) s = tt
  page_of-Logs (child p) s = Logged-refl K s

  pub key_at-Logs : (p index : ℕ) → Logs K (key_at K p index)
  unfolding key_at
  key_at-Logs p index = Logs-bind K (load K p) _ (load-Logs p) (λ n.
      Logs-bind K (item_at K n.items index) _ (item_at-Logs n.items index) (λ x. Logs-return K x.0))

  pub value_at-Logs : (p index : ℕ) → Logs K (value_at K p index)
  unfolding value_at
  value_at-Logs p index = Logs-bind K (load K p) _ (load-Logs p) (λ n.
      Logs-bind K (item_at K n.items index) _ (item_at-Logs n.items index) (λ x. page_of-Logs x.1))

  pub load-cases :
      (p : ℕ) (s : Index K)
      → (load K p s ≡ crash) ⊎ ((n : Node K) × (s.pages p ≡ node n) × (load K p s ≡ done n s))
  unfolding load
  load-cases p s = by_page (s.pages p) refl
    where
      by_page :
          (page : Page K)
          → s.pages p ≡ page
          → (load K p s ≡ crash) ⊎ ((n : Node K) × (s.pages p ≡ node n) × (load K p s ≡ done n s))
      by_page unused h = inl (rw (h, load) refl)
      by_page (header root) h = inl (rw (h, load) refl)
      by_page (node n) h = inr (n, h, rw (h, load) refl)

  pub set_parent_page_num-Logs :
      (p : ℕ) (parent : Option ℕ) → Logs K (set_parent_page_num K p parent)
  unfolding set_parent_page_num redo_page
  set_parent_page_num-Logs p parent s = elim (load-cases p s) [
    | inl stuck ↦ rw stuck tt
    | inr (n, at, run) ↦ rw run (
        Logged-write K s (set_parent_page p parent n.parent) (node (with_parent K parent n))
          (rw at refl))
  ]

  pub insert_logged-Logs :
      (p index : ℕ) (items : List (Item K)) → Logs K (insert_logged K p index items)
  unfolding insert_logged redo_page
  insert_logged-Logs p index items s = elim (load-cases p s) [
    | inl stuck ↦ rw stuck tt
    | inr (n, at, run) ↦ rw run (
        Logged-write K s (node_insert p index items) (node (recover_insert_items K index items n))
          (rw at refl))
  ]

  drop-taken :
      (index num : ℕ) (xs : List (Item K))
      → drop (index + length (take num (drop index xs))) xs ≡ drop (index + num) xs
  drop-taken index num xs =
      drop-add index (length (take num (drop index xs))) xs
      ∙ drop-length-take num (drop index xs)
      ∙ sym (drop-add index num xs)

  drop-past : (index : ℕ) (xs : List (Item K)) → drop (index + length (drop index xs)) xs ≡ []
  drop-past index xs = drop-add index (length (drop index xs)) xs ∙ drop-length (drop index xs)

  pub remove_logged-Logs : (p index num : ℕ) → Logs K (remove_logged K p index num)
  unfolding remove_logged redo_page
  remove_logged-Logs p index num s = elim (load-cases p s) [
    | inl stuck ↦ rw stuck tt
    | inr (n, at, run) ↦ rw run (
        Logged-write K s (node_remove p index (take num (drop index n.items)))
          (node (recover_remove_items K index num n))
          (rw at (
            ap (λ rest. some (node (with_items K (take index n.items ++ rest) n)))
              (drop-taken index num n.items))))
  ]

  pub shrink_logged-Logs : (p index : ℕ) → Logs K (shrink_logged K p index)
  unfolding shrink_logged redo_page
  shrink_logged-Logs p index s = elim (load-cases p s) [
    | inl stuck ↦ rw stuck tt
    | inr (n, at, run) ↦ rw run (
        Logged-write K s (node_remove p index (drop index n.items))
          (node (with_items K (take index n.items) n))
          (rw at (
            ap (λ rest. some (node (with_items K (take index n.items ++ rest) n)))
              (drop-past index n.items)
            ∙ ap (λ items. some (node (with_items K items n))) (append-nil _))))
  ]

  pub remove-Logs : (p index : ℕ) → Logs K (remove K p index)
  unfolding remove
  remove-Logs p index = Logs-bind K (load K p) _ (load-Logs p) (λ n.
      if-Logs K (ltb index (size K n)) _ _ (remove_logged-Logs p index 1) (Logs-crash K (Unit {0})))
