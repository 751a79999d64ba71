-- ===== src/Index/Parents.antt =====
-- What the handler of an internal node does to the parents that its children name, and `insert`.
use miniob4cqu_db_exp.Common.{
  ℕ, suc, ◌+◌, ◌≤◌, ◌≡◌, refl, sym, ap, ◌∙◌, Bool, false, Option, some, List, [], ◌∷◌, ◌++◌, All,
  length, take, drop, ◌==◌, ==_iff, Bool-cases, inl, inr, arith,
}
use miniob4cqu_db_exp.Common.Step.{Step, done, ◌>>=◌, ◌>>◌}
use miniob4cqu_db_exp.Index.Page.{
  IndexKeys, Key, Item, Node, Page, node, rid, child, Index, write, set_parent_page, node_insert,
}
use miniob4cqu_db_exp.Index.Node.{
  get_page, load, with_items, with_parent, insert_logged, set_parent_page_num,
}
use miniob4cqu_db_exp.Index.Internal
use miniob4cqu_db_exp.Index.Search.{lower_bound}
use miniob4cqu_db_exp.Index.SearchBounds.{lower_bound-first_not_below}
use miniob4cqu_db_exp.Index.LeafOrder.{IsSorted, comparing, position, IsSorted-IsAscending}
use miniob4cqu_db_exp.Index.LeafInsert.{inserted}
use miniob4cqu_db_exp.Index.Shape.{OnChild}
use miniob4cqu_db_exp.Index.Wrote.{
  load-node, get_page-node, wrote, write-other, set_parent_page_num-wrote, insert_logged-wrote,
}
use miniob4cqu_db_exp.Index.Whole.{one, view, parent_in, roots}
use miniob4cqu_db_exp.Index.Whole.Frame.{ne-one}
use miniob4cqu_db_exp.Index.Whole.Forget.{view-node}

module _ (K : IndexKeys) where
  -- Each child of the items is a node.
  abbrev pub HasView : (ℕ → Page K) → Item K → Type 0
  HasView pages x =
      OnChild K (λ c. (b : Bool) × (l : List (Item K)) × (view K (pages c) ≡ some (b, l))) x.1

  -- From `s` to `s'` the children of the items have taken the parent, and no more is changed.
  pub record Reparented (parent : ℕ) (items : List (Item K)) (s s' : Index K) : Type 0 where
    pub views : (a : ℕ) → view K (s'.pages a) ≡ view K (s.pages a)
    pub moved : (a : ℕ) → 1 ≤ roots K items a → parent_in K (s'.pages a) ≡ some parent
    pub stays : (a : ℕ) → roots K items a ≡ 0 → s'.pages a ≡ s.pages a
    pub root : s'.root_page ≡ s.root_page
    pub left : s'.free ≡ s.free

  abbrev set_steps : ℕ → Key K → ℕ → List (Item K) → Step (Index K) (Unit {0})
  set_steps p k c items = do
    get_page K c
    set_parent_page_num K c (some p)
    Internal.set_parents K p items

  set_parents_lem :
      (p : ℕ) (k : Key K) (c : ℕ) (items : List (Item K)) (s : Index K)
      → Internal.set_parents K p ((k, child c) ∷ items) s ≡ set_steps p k c items s
  unfolding Internal.set_parents
  set_parents_lem p k c items s = refl

  set_parents-nil : (p : ℕ) (s : Index K) → Internal.set_parents K p [] s ≡ done tt s
  unfolding Internal.set_parents
  set_parents-nil p s = refl

  pub with_parent-view :
      (s : Index K) (c : ℕ) (n : Node K) (parent : Option ℕ) (a : ℕ)
      → s.pages c ≡ node n
      → view K ((wrote K s c (with_parent K parent n) (set_parent_page c parent n.parent)).pages a)
        ≡ view K (s.pages a)
  with_parent-view s c n parent a at = elim (Bool-cases (c == a)) [
    | inl same ↦ rw same (sym (ap (view K) (ap s.pages (sym ((==_iff c a).0 same)) ∙ at)))
    | inr other ↦ rw other refl
  ]

  pub write-parent :
      (s : Index K) (c : ℕ) (n : Node K) (p a : ℕ)
      → 1 ≤ one c a
      → parent_in K (write K s.pages c (node (with_parent K (some p) n)) a) ≡ some p
  write-parent s c n p a h = elim (Bool-cases (c == a)) [
    | inl same ↦ rw same refl
    | inr other ↦ absurd (ground (arith, h, other))
  ]

  pub HasView-All :
      (pages pages' : ℕ → Page K) (items : List (Item K))
      → ((a : ℕ) → view K (pages' a) ≡ view K (pages a))
      → All (HasView pages) items
      → All (HasView pages') items
  HasView-All pages pages' [] same h = tt
  HasView-All pages pages' ((k, child c) ∷ items) same ((b, l, at), hs) =
      ((b, l, same c ∙ at), HasView-All pages pages' items same hs)
  HasView-All pages pages' ((k, rid r) ∷ items) same (h, hs) = elim h [ ]

  pub set_parents-Reparented :
      (p : ℕ) (items : List (Item K)) (s : Index K)
      → All (HasView s.pages) items
      → (s' : Index K) × (Internal.set_parents K p items s ≡ done tt s') × Reparented p items s s'
  set_parents-Reparented p [] s h = (
    s,
    set_parents-nil p s,
    record {
      views = λ a. refl;
      moved = λ a k. absurd (omega arith);
      stays = λ a k. refl;
      root = refl;
      left = refl;
    },
  )
  set_parents-Reparented p ((k, rid r) ∷ items) s (h, hs) = elim h [ ]
  set_parents-Reparented p ((k, child c) ∷ items) s ((b, l, at), hs) =
      let (n, here, leaf, is) = view-node K (s.pages c) b l at in
      let s1 = wrote K s c (with_parent K (some p) n) (set_parent_page c (some p) n.parent) in
      let same = λ (a : ℕ). with_parent-view s c n (some p) a here in
      let (s', run, t) =
        set_parents-Reparented p items s1 (HasView-All s.pages s1.pages items same hs) in
      (
        s',
        set_parents_lem p k c items s
            ∙ rw (get_page-node K c n s here)
                (rw (set_parent_page_num-wrote K s c n here (some p)) run),
        record {
          views = λ a. t.views a ∙ same a;
          moved = λ a h. elim (Bool-cases (roots K items a == 0)) [
            | inl absent ↦
                ap (parent_in K) (t.stays a ((==_iff _ _).0 absent))
                ∙ write-parent s c n p a (omega (arith, h, (==_iff (roots K items a) 0).0 absent))
            | inr present ↦ t.moved a (ground (arith, present))
          ];
          stays = λ a h.
              t.stays a (omega (arith, h))
              ∙ write-other K s.pages c a _ (ne-one c a (omega (arith, h)));
          root = t.root;
          left = t.left;
        },
      )

  lookup-position :
      (key : Key K) (n : Node K) (x : Item K) (rest : List (Item K))
      → n.items ≡ x ∷ rest
      → IsSorted K rest
      → (Internal.lookup K n key).1 ≡ suc (position K key rest)
  unfolding Internal.lookup lower_bound
  lookup-position key n x rest is sorted =
      rw (is, Internal.lookup)
        (rw nonempty (
          ap (λ (r : ℕ × Bool). r.0 + 1)
            (lower_bound-first_not_below (comparing K key) rest
              (IsSorted-IsAscending K key rest sorted))
          ∙ omega arith))
    where
      nonempty : (length (x ∷ rest) == 0) ≡ false
      nonempty = ground arith

  abbrev insert_steps : ℕ → Key K → ℕ → Step (Index K) (Unit {0})
  insert_steps p key page = do
    n ← load K p
    insert_logged K p (Internal.lookup K n key).1 ((key, child page) ∷ [])

  insert_lem :
      (p : ℕ) (key : Key K) (page : ℕ) (s : Index K)
      → Internal.insert K p key page s ≡ insert_steps p key page s
  unfolding Internal.insert
  insert_lem p key page s = refl

  pub insert-wrote :
      (s : Index K) (p : ℕ) (n : Node K) (key : Key K) (page : ℕ) (x : Item K)
      (rest : List (Item K))
      → s.pages p ≡ node n
      → n.items ≡ x ∷ rest
      → IsSorted K rest
      → Internal.insert K p key page s
        ≡ done tt (
            wrote K s p
              (with_items K (x ∷ inserted K key (child page) rest) n)
              (node_insert p (suc (position K key rest)) ((key, child page) ∷ [])))
  insert-wrote s p n key page x rest at is sorted =
      insert_lem p key page s
      ∙ rw (load-node K p n s at) (
          rw (lookup-position key n x rest is sorted) (
            insert_logged-wrote K s p n at (suc (position K key rest)) ((key, child page) ∷ [])
            ∙ ap
                (λ items. done tt (
                  wrote K s p
                    (with_items K
                      (take (suc (position K key rest)) items
                        ++ ((key, child page) ∷ [] ++ drop (suc (position K key rest)) items))
                      n)
                    (node_insert p (suc (position K key rest)) ((key, child page) ∷ []))))
                is))
