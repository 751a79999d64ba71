-- ===== src/Index/Whole/Holds.antt =====
-- What an index holds, and the index after its root was split.
use miniob4cqu_db_exp.Common.{
  ℕ, suc, ◌+◌, ◌≤◌, ◌≡◌, ◌≢◌, refl, sym, ap, ◌∙◌, subst, Option, none, some, List, [], ◌∷◌, length,
  arith,
}
use miniob4cqu_db_exp.Common.Step.{done}
use miniob4cqu_db_exp.Index.Page.{IndexKeys, Key, Item, header, child, Rid, Index}
use miniob4cqu_db_exp.Index.LeafOrder.{IsSorted}
use miniob4cqu_db_exp.Index.Range.{items_of-IsSorted}
use miniob4cqu_db_exp.Index.ParentStep.{to_root}
use miniob4cqu_db_exp.Index.Tree.{Sizes, first_index_page, insert_entry_into_parent}
use miniob4cqu_db_exp.Index.Whole.{one, occurs, parent_in, Tree}
use miniob4cqu_db_exp.Index.Whole.Frame.{one_self, ne-one, Tree-frame, Tree-own}
use miniob4cqu_db_exp.Index.Whole.Forget.{Tree-IsTree}
use miniob4cqu_db_exp.Index.Whole.Change.{Change}
use miniob4cqu_db_exp.Index.Whole.Result.{Distinct, Pair}
use miniob4cqu_db_exp.Index.Whole.Parent.{Tree-view}
use miniob4cqu_db_exp.Index.Whole.Ascend.{some_free}
use miniob4cqu_db_exp.Index.Whole.NewRoot.{NewRoot, grow_root-NewRoot}
use miniob4cqu_db_exp.Index.Whole.Forget.{view-node}

module _ (K : IndexKeys) (sizes : Sizes) where
  -- The state holds a B+ tree of the height with these items, in the order of their keys: each page
  -- names its parent, no page is in the tree twice or both in the tree and free, and the header page
  -- is neither.
  pub record Holds (s : Index K) (height : ℕ) (items : List (Item K)) : Type 0 where
    pub root : ℕ
    pub own : ℕ → ℕ
    pub at_root : s.root_page ≡ some root
    pub tree : Tree K s.pages height none none root own items
    pub top : parent_in K (s.pages root) ≡ none
    pub distinct : Distinct K sizes own s
    pub old : Option ℕ
    pub head : s.pages first_index_page ≡ header old
    pub head_apart : own first_index_page + occurs first_index_page s.free ≡ 0

  pub Holds-IsSorted :
      (s : Index K) (height : ℕ) (items : List (Item K)) → Holds s height items → IsSorted K items
  Holds-IsSorted s height items h =
      let (tree, is) = Tree-IsTree K s.pages height none none h.root h.own items h.tree in
      subst (IsSorted K) is (items_of-IsSorted K s.pages height none none h.root tree)

  -- The root was split, under its key `m`.
  module _ (key : Key K) (r : Rid) (height : ℕ) (s s1 : Index K) (items items' : List (Item K))
      (own' : ℕ → ℕ) (new : ℕ) (m : Key K) (h : Holds s height items)
      (change : Change K key r (suc height) s s1 h.own own' items items')
      (pair : Pair K sizes height none none h.root new m s s1 own' items')
      (enough : suc (suc height) ≤ length s.free) where
    own_p : (a : ℕ) → one h.root a ≤ pair.first a
    own_p = Tree-own K s1.pages height none (some m) h.root pair.first pair.left pair.lower

    own_new : (a : ℕ) → one new a ≤ pair.later a
    own_new = Tree-own K s1.pages height (some m) none new pair.later pair.right pair.upper

    once : (a : ℕ) → pair.first a + pair.later a + occurs a s1.free ≤ 1
    once a = omega (arith, change.counted a, h.distinct a, pair.owns a)

    no_head :
        pair.first first_index_page + pair.later first_index_page + occurs first_index_page s1.free
        ≡ 0
    no_head =
        omega (arith, change.counted first_index_page, h.head_apart, pair.owns first_index_page)

    -- A page that one part has and another has not.
    apart : (a b : ℕ) (f : ℕ → ℕ) → 1 ≤ f a → f b ≡ 0 → a ≢ b
    apart a b f has lacks same = absurd (omega (arith, has, lacks, ap f same))

    first_apart : (a : ℕ) → 1 ≤ pair.first a → (a ≢ new) × (a ≢ first_index_page)
    first_apart a has = (
      apart a new pair.first has (omega (arith, own_new new, one_self new, once new)),
      apart a first_index_page pair.first has (omega (arith, no_head)),
    )

    later_apart : (a : ℕ) → 1 ≤ pair.later a → (a ≢ h.root) × (a ≢ first_index_page)
    later_apart a has = (
      apart a h.root pair.later has (omega (arith, own_p h.root, one_self h.root, once h.root)),
      apart a first_index_page pair.later has (omega (arith, no_head)),
    )

    module _ (top : ℕ) (free : List ℕ) (fresh : s1.free ≡ top ∷ free) where
      top_apart : (a : ℕ) → 1 ≤ pair.first a + pair.later a → a ≢ top
      top_apart a has same = absurd (
          omega (
            arith,
            has,
            once top,
            ap (occurs top) fresh,
            one_self top,
            ap (λ b. pair.first b + pair.later b) same,
          ))

      head_top : first_index_page ≢ top
      head_top same = absurd (
          omega
            (arith, no_head, ap (occurs first_index_page) fresh, one_self top, ap (one top) same))

      module _ (s2 : Index K) (t : NewRoot K sizes s1 s2 top h.root new m free) where
        lower : Tree K s2.pages height none (some m) h.root pair.first pair.left
        lower =
            Tree-frame K s1.pages s2.pages height none (some m) h.root pair.first pair.left
              (λ a. omega (arith, once a))
              (λ a k. t.views a (top_apart a (omega arith)) (first_apart a k).1)
              (λ a k l. ap (parent_in K) (
                t.stays a (top_apart a (omega arith)) (ne-one h.root a l) (first_apart a k).0
                  (first_apart a k).1))
              pair.lower

        upper : Tree K s2.pages height (some m) none new pair.later pair.right
        upper =
            Tree-frame K s1.pages s2.pages height (some m) none new pair.later pair.right
              (λ a. omega (arith, once a))
              (λ a k. t.views a (top_apart a (omega arith)) (later_apart a k).1)
              (λ a k l. ap (parent_in K) (
                t.stays a (top_apart a (omega arith)) (later_apart a k).0 (ne-one new a l)
                  (later_apart a k).1))
              pair.upper

        taller : Holds s2 (suc height) items'
        taller = record {
          root = top;
          own = λ a. one top a + own' a;
          at_root = t.root;
          tree = (
            (K.zero_key, child h.root),
            (m, child new) ∷ [],
            own',
            t.here,
            (tt, tt),
            (tt, tt),
            (tt, tt),
            (t.parent_p, (t.parent_new, tt)),
            λ a. refl,
            (pair.first, pair.later, pair.left, pair.right, pair.owns, pair.is, lower, upper),
          );
          top = t.no_parent;
          distinct =
              λ a. omega (arith, once a, pair.owns a, ap (occurs a) fresh, ap (occurs a) t.left);
          old = some top;
          head = t.head;
          head_apart = omega (
            arith,
            no_head,
            pair.owns first_index_page,
            ap (occurs first_index_page) fresh,
            ap (occurs first_index_page) t.left,
          );
        }

    pub insert_entry_into_parent-Holds :
        (f : ℕ)
        → (s' : Index K) × (insert_entry_into_parent K sizes (suc f) h.root new m s1 ≡ done tt s')
          × Holds s' (suc height) items'
          × (length s.free ≤ length s'.free + suc (suc height))
    insert_entry_into_parent-Holds f =
        let (top, free, fresh) = some_free s1.free (omega (arith, change.room)) in
        let (b, l, at_p) =
          Tree-view K s1.pages height none (some m) h.root pair.first pair.left pair.lower in
        let (np, node_p, leaf_p, is_p) = view-node K (s1.pages h.root) b l at_p in
        let (b', l', at_new) =
          Tree-view K s1.pages height (some m) none new pair.later pair.right pair.upper in
        let (nn, node_new, leaf_new, is_new) = view-node K (s1.pages new) b' l' at_new in
        let has_p = own_p h.root in
        let has_new = own_new new in
        let (s2, run, t) =
          grow_root-NewRoot K sizes s1 top h.root new m free np nn h.old fresh node_p node_new
            (change.other first_index_page h.head_apart ∙ h.head)
            (top_apart top free fresh h.root (omega (arith, has_p, one_self h.root)))
            (top_apart top free fresh new (omega (arith, has_new, one_self new)))
            (later_apart new (omega (arith, has_new, one_self new))).0 (head_top top free fresh)
            (λ e. (first_apart h.root (omega (arith, has_p, one_self h.root))).1 (sym e))
            (λ e. (later_apart new (omega (arith, has_new, one_self new))).1 (sym e)) in
        (
          s2,
          to_root K sizes f h.root new m s1 np node_p
                (sym (ap (parent_in K) node_p) ∙ pair.named ∙ h.top)
              ∙ run,
          taller top free fresh s2 t,
          omega (arith, change.room, ap length fresh, ap length t.left),
        )
