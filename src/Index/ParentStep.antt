-- ===== src/Index/ParentStep.antt =====
-- `insert_entry_into_parent` under a parent that has room, and under one that is split.
use miniob4cqu_db_exp.Common.{
  ℕ, suc, ◌≡◌, ◌≢◌, refl, sym, ap, ◌∙◌, Bool, true, false, Option, none, some, List, [], ◌∷◌, ltb,
  ◌==◌, ==_iff, Bool-cases, inl, inr, arith,
}
use miniob4cqu_db_exp.Common.Step.{Step, done, ◌>>=◌, ◌>>◌}
use miniob4cqu_db_exp.Index.Page.{
  IndexKeys, Key, Item, Node, Page, unused, header, node, child, Index, set_parent_page,
  node_insert,
}
use miniob4cqu_db_exp.Index.Node.{
  get_page, load, size, key_at, with_items, with_parent, set_parent_page_num,
}
use miniob4cqu_db_exp.Index.Internal
use miniob4cqu_db_exp.Index.LeafOrder.{IsSorted, position}
use miniob4cqu_db_exp.Index.LeafInsert.{inserted}
use miniob4cqu_db_exp.Index.Wrote.{
  load-node, get_page-node, write_self, write-other, wrote, set_parent_page_num-wrote,
}
use miniob4cqu_db_exp.Index.Whole.{one, view, parent_in}
use miniob4cqu_db_exp.Index.Whole.Frame.{ne-one, one-eq}
use miniob4cqu_db_exp.Index.Parents.{insert-wrote, write-parent, with_parent-view}
use miniob4cqu_db_exp.Index.NodeHalves.{positive}
use miniob4cqu_db_exp.Index.Tree.{
  Sizes, split, insert_into_half, grow_root, insert_entry_into_parent,
}

module _ (K : IndexKeys) where
  -- From `s` to `s'` the node `n` in `q`, with the children `x` and `rest`, takes the page `new`.
  pub record ParentTook (s s' : Index K) (q : ℕ) (n : Node K) (x : Item K) (rest : List (Item K))
      (m : Key K) (new : ℕ) : Type 0 where
    pub here : s'.pages q ≡ node (with_items K (x ∷ inserted K m (child new) rest) n)
    pub views : (a : ℕ) → a ≢ q → view K (s'.pages a) ≡ view K (s.pages a)
    pub kept : (a : ℕ) → a ≢ q → parent_in K (s'.pages a) ≡ parent_in K (s.pages a)
    pub stays : (a : ℕ) → a ≢ q → a ≢ new → s'.pages a ≡ s.pages a
    pub root : s'.root_page ≡ s.root_page
    pub left : s'.free ≡ s.free

  pub parent_in-node :
      (page : Page K) (q : ℕ)
      → parent_in K page ≡ some q
      → (n : Node K) × (page ≡ node n) × (n.parent ≡ some q)
  parent_in-node unused q h = absurd (ground (arith, h))
  parent_in-node (header root) q h = absurd (ground (arith, h))
  parent_in-node (node n) q h = (n, refl, h)

module _ (K : IndexKeys) (sizes : Sizes) where
  -- The steps of the code, with the callees shut.
  abbrev pub by_room : ℕ → ℕ → Key K → ℕ → Bool → Step (Index K) (Unit {0})
  by_room fuel new key parent room = elim room [
    | true ↦ do Internal.insert K parent key new; set_parent_page_num K new (some parent)
    | false ↦ do
      new_parent ← split K sizes false parent
      insert_into_half K sizes parent new_parent new key
      middle ← key_at K new_parent 0
      insert_entry_into_parent K sizes fuel parent new_parent middle
  ]

  abbrev under_parent : ℕ → ℕ → Key K → ℕ → Step (Index K) (Unit {0})
  under_parent fuel new key parent = do
    get_page K parent
    above ← load K parent
    by_room fuel new key parent (ltb (size K above) sizes.internal_max_size)

  abbrev by_parent : ℕ → ℕ → ℕ → Key K → Option ℕ → Step (Index K) (Unit {0})
  by_parent fuel p new key parent = elim parent [
    | none ↦ grow_root K sizes p new key
    | some parent ↦ under_parent fuel new key parent
  ]

  abbrev parent_steps : ℕ → ℕ → ℕ → Key K → Step (Index K) (Unit {0})
  parent_steps fuel p new key = do n ← load K p; by_parent fuel p new key n.parent

  parent_lem :
      (fuel p new : ℕ) (key : Key K) (s : Index K)
      → insert_entry_into_parent K sizes (suc fuel) p new key s ≡ parent_steps fuel p new key s
  unfolding insert_entry_into_parent
  parent_lem fuel p new key s = refl

  to_parent :
      (fuel p new : ℕ) (key : Key K) (s : Index K) (n : Node K) (parent : Option ℕ)
      → s.pages p ≡ node n
      → n.parent ≡ parent
      → insert_entry_into_parent K sizes (suc fuel) p new key s ≡ by_parent fuel p new key parent s
  to_parent fuel p new key s n parent at is =
      parent_lem fuel p new key s
      ∙ rw (load-node K p n s at) refl
      ∙ ap (λ o. by_parent fuel p new key o s) is

  pub to_room :
      (fuel p new q : ℕ) (key : Key K) (s : Index K) (above : Node K) (room : Bool)
      → parent_in K (s.pages p) ≡ some q
      → s.pages q ≡ node above
      → ltb (size K above) sizes.internal_max_size ≡ room
      → insert_entry_into_parent K sizes (suc fuel) p new key s ≡ by_room fuel new key q room s
  to_room fuel p new q key s above room from_child at is =
      let (n, at_child, parent_is) = parent_in-node K (s.pages p) q from_child in
      to_parent fuel p new key s n (some q) at_child parent_is
      ∙ rw (get_page-node K q above s at) (rw (load-node K q above s at) refl)
      ∙ ap (λ room. by_room fuel new key q room s) is

  pub to_root :
      (fuel p new : ℕ) (key : Key K) (s : Index K) (n : Node K)
      → s.pages p ≡ node n
      → n.parent ≡ none
      → insert_entry_into_parent K sizes (suc fuel) p new key s ≡ grow_root K sizes p new key s
  to_root fuel p new key s n at is = to_parent fuel p new key s n none at is

  module _ (fuel c new q : ℕ) (m : Key K) (s : Index K) (n nn : Node K) (x : Item K)
      (rest : List (Item K)) (from_child : parent_in K (s.pages c) ≡ some q)
      (named : parent_in K (s.pages new) ≡ some q) (at : s.pages q ≡ node n)
      (is : n.items ≡ x ∷ rest) (sorted : IsSorted K rest) (at_new : s.pages new ≡ node nn)
      (new_q : new ≢ q) where
    abbrev took : Node K
    took = with_items K (x ∷ inserted K m (child new) rest) n

    abbrev filled : Index K
    filled = wrote K s q took (node_insert q (suc (position K m rest)) ((m, child new) ∷ []))

    abbrev adopted : Index K
    adopted =
        wrote K filled new (with_parent K (some q) nn) (set_parent_page new (some q) nn.parent)

    filled_new : filled.pages new ≡ node nn
    filled_new = write-other K s.pages q new (node took) new_q ∙ at_new

    pub insert_entry_into_parent-room :
        ltb (size K n) sizes.internal_max_size ≡ true
        → (s' : Index K) × (insert_entry_into_parent K sizes (suc fuel) c new m s ≡ done tt s')
          × ParentTook K s s' q n x rest m new
    insert_entry_into_parent-room room = (
      adopted,
      to_room fuel c new q m s n true from_child at room
          ∙ rw (insert-wrote K s q n m new x rest at is sorted)
              (rw (set_parent_page_num-wrote K filled new nn filled_new (some q)) refl),
      record {
        here =
            write-other K filled.pages new q _ (λ h. new_q (sym h))
            ∙ write_self K s.pages q (node took);
        views = λ a h.
            with_parent-view K filled new nn (some q) a filled_new
            ∙ ap (view K) (write-other K s.pages q a (node took) h);
        kept = λ a h. elim (Bool-cases (one new a == 0)) [
          | inl other ↦ ap (parent_in K) (
              write-other K filled.pages new a _ (ne-one new a ((==_iff (one new a) 0).0 other))
              ∙ write-other K s.pages q a (node took) h)
          | inr same ↦
              write-parent K filled new nn q a (positive (one new a) same)
              ∙ sym (
                  ap (λ b. parent_in K (s.pages b)) (sym (one-eq new a (positive (one new a) same)))
                  ∙ named)
        ];
        stays =
            λ a h k. write-other K filled.pages new a _ k ∙ write-other K s.pages q a (node took) h;
        root = refl;
        left = refl;
      },
    )
