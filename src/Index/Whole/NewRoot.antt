-- ===== src/Index/Whole/NewRoot.antt =====
-- A root that was split gets a new root above it.
use miniob4cqu_db_exp.Common.{
  ℕ, ◌≡◌, ◌≢◌, refl, sym, ap, ◌∙◌, false, Option, none, some, List, [], ◌∷◌, ◌++◌,
}
use miniob4cqu_db_exp.Common.Step.{Step, done, ◌>>=◌, ◌>>◌}
use miniob4cqu_db_exp.Index.Page.{
  IndexKeys, Key, Node, header, node, Index, write, internal_init_empty, internal_create_new_root,
  set_parent_page, update_root_page,
}
use miniob4cqu_db_exp.Index.Node.{
  allocate_page, with_items, with_parent, empty_node, set_parent_page_num,
}
use miniob4cqu_db_exp.Index.Internal
use miniob4cqu_db_exp.Index.Wrote.{
  load-node, wrote, without, write_self, write-other, allocate_page-free, internal_init_empty-wrote,
  set_parent_page_num-wrote,
}
use miniob4cqu_db_exp.Index.Parents.{with_parent-view}
use miniob4cqu_db_exp.Index.Tree.{Sizes, first_index_page, update_root_page_num, grow_root}
use miniob4cqu_db_exp.Index.Whole.{view, parent_in}

module _ (K : IndexKeys) (sizes : Sizes) where
  pub update_root_page_num_lem :
      (s : Index K) (root old : Option ℕ)
      → s.pages first_index_page ≡ header old
      → update_root_page_num K sizes root s
        ≡ done tt (record s {
          pages = write K s.pages first_index_page (header root);
          root_page = root;
          log = s.log ++ update_root_page first_index_page root old ∷ [];
        })
  unfolding update_root_page_num
  update_root_page_num_lem s root old h = rw (h, update_root_page_num) refl

  -- The steps of the code, with the callees shut.
  abbrev grow_steps : ℕ → ℕ → Key K → Step (Index K) (Unit {0})
  grow_steps p new key = do
    root ← allocate_page K
    Internal.init_empty K root
    Internal.create_new_root K root p key new
    set_parent_page_num K p (some root)
    set_parent_page_num K new (some root)
    update_root_page_num K sizes (some root)

  grow_lem :
      (p new : ℕ) (key : Key K) (s : Index K)
      → grow_root K sizes p new key s ≡ grow_steps p new key s
  unfolding grow_root
  grow_lem p new key s = refl

  create_new_root-wrote :
      (s : Index K) (root p new : ℕ) (key : Key K)
      → s.pages root ≡ node (empty_node K false)
      → Internal.create_new_root K root p key new s
        ≡ done tt (
            wrote K s root
              (with_items K (Internal.root_items K p key new) (empty_node K false))
              (internal_create_new_root root p key new))
  unfolding Internal.create_new_root
  create_new_root-wrote s root p new key at = rw (load-node K root _ s at) refl

  -- From `s` to `s'` the page `top` has become the root, with the children `p` and `new`.
  pub record NewRoot (s s' : Index K) (top p new : ℕ) (key : Key K) (free : List ℕ) : Type 0 where
    pub here : view K (s'.pages top) ≡ some (false, Internal.root_items K p key new)
    pub no_parent : parent_in K (s'.pages top) ≡ none
    pub views : (a : ℕ) → a ≢ top → a ≢ first_index_page → view K (s'.pages a) ≡ view K (s.pages a)
    pub parent_p : parent_in K (s'.pages p) ≡ some top
    pub parent_new : parent_in K (s'.pages new) ≡ some top
    pub stays : (a : ℕ) → a ≢ top → a ≢ p → a ≢ new → a ≢ first_index_page → s'.pages a ≡ s.pages a
    pub head : s'.pages first_index_page ≡ header (some top)
    pub root : s'.root_page ≡ some top
    pub left : s'.free ≡ free

  module _ (s : Index K) (top p new : ℕ) (key : Key K) (free : List ℕ) (np nn : Node K)
      (old : Option ℕ) (fresh : s.free ≡ top ∷ free) (at_p : s.pages p ≡ node np)
      (at_new : s.pages new ≡ node nn) (at_head : s.pages first_index_page ≡ header old)
      (p_top : p ≢ top) (new_top : new ≢ top) (new_p : new ≢ p) (head_top : first_index_page ≢ top)
      (head_p : first_index_page ≢ p) (head_new : first_index_page ≢ new) where
    abbrev initial : Index K
    initial = wrote K (without K s free) top (empty_node K false) (internal_init_empty top)

    abbrev node_of_root : Node K
    node_of_root = with_items K (Internal.root_items K p key new) (empty_node K false)

    abbrev rooted : Index K
    rooted = wrote K initial top node_of_root (internal_create_new_root top p key new)

    abbrev first : Index K
    first = wrote K rooted p (with_parent K (some top) np) (set_parent_page p (some top) np.parent)

    abbrev second : Index K
    second =
        wrote K first new (with_parent K (some top) nn) (set_parent_page new (some top) nn.parent)

    abbrev final : Index K
    final = record second {
      pages = write K second.pages first_index_page (header (some top));
      root_page = some top;
      log = second.log ++ update_root_page first_index_page (some top) old ∷ [];
    }

    rooted-other : (a : ℕ) → a ≢ top → rooted.pages a ≡ s.pages a
    rooted-other a h = write-other K initial.pages top a _ h ∙ write-other K s.pages top a _ h

    rooted_p : rooted.pages p ≡ node np
    rooted_p = rooted-other p p_top ∙ at_p

    first_new : first.pages new ≡ node nn
    first_new = write-other K rooted.pages p new _ new_p ∙ rooted-other new new_top ∙ at_new

    second-other : (a : ℕ) → a ≢ top → a ≢ p → a ≢ new → second.pages a ≡ s.pages a
    second-other a h k l =
        write-other K first.pages new a _ l ∙ write-other K rooted.pages p a _ k ∙ rooted-other a h

    pub grow_root-NewRoot :
        (s' : Index K) × (grow_root K sizes p new key s ≡ done tt s')
        × NewRoot s s' top p new key free
    grow_root-NewRoot = (
      final,
      grow_lem p new key s
          ∙ rw (allocate_page-free K s top free fresh) (
              rw (internal_init_empty-wrote K (without K s free) top) (
                rw (create_new_root-wrote initial top p new key (write_self K s.pages top _)) (
                  rw (set_parent_page_num-wrote K rooted p np rooted_p (some top)) (
                    rw (set_parent_page_num-wrote K first new nn first_new (some top)) (
                      update_root_page_num_lem second (some top) old
                        (second-other first_index_page head_top head_p head_new ∙ at_head)))))),
      record {
        here = ap (view K) top_here;
        no_parent = ap (parent_in K) top_here;
        views = λ a h k.
            ap (view K) (write-other K second.pages first_index_page a _ k)
            ∙ with_parent-view K first new nn (some top) a first_new
            ∙ with_parent-view K rooted p np (some top) a rooted_p
            ∙ ap (view K) (rooted-other a h);
        parent_p = ap (parent_in K) (
            write-other K second.pages first_index_page p _ (λ e. head_p (sym e))
            ∙ write-other K first.pages new p _ (λ e. new_p (sym e))
            ∙ write_self K rooted.pages p _);
        parent_new = ap (parent_in K) (
            write-other K second.pages first_index_page new _ (λ e. head_new (sym e))
            ∙ write_self K first.pages new _);
        stays =
            λ a h k l e. write-other K second.pages first_index_page a _ e ∙ second-other a h k l;
        head = write_self K second.pages first_index_page _;
        root = refl;
        left = refl;
      },
    )
      where
        top_here : final.pages top ≡ node node_of_root
        top_here =
            write-other K second.pages first_index_page top _ (λ e. head_top (sym e))
            ∙ write-other K first.pages new top _ (λ e. new_top (sym e))
            ∙ write-other K rooted.pages p top _ (λ e. p_top (sym e))
            ∙ write_self K initial.pages top _
