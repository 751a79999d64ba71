-- ===== src/Index/SplitNode.antt =====
-- `split` of an internal node.
use mathlib.Core.List.{append-nil}
use miniob4cqu_db_exp.Common.{
  ℕ, ◌/◌, ◌≤◌, ◌≡◌, ◌≢◌, refl, sym, ap, ◌∙◌, false, none, some, List, [], ◌∷◌, ◌++◌, All, take,
  drop, arith,
}
use miniob4cqu_db_exp.Common.Step.{Step, done, ◌>>=◌, ◌>>◌, return, ignore}
use miniob4cqu_db_exp.Index.Page.{
  IndexKeys, Item, Node, Page, node, rid, child, Index, internal_init_empty, set_parent_page,
  node_insert, node_remove,
}
use miniob4cqu_db_exp.Index.Node.{
  allocate_page, load, size, with_items, with_parent, empty_node, insert_logged, shrink_logged,
  set_parent_page_num,
}
use miniob4cqu_db_exp.Index.Internal
use miniob4cqu_db_exp.Index.Wrote.{
  load-node, write_self, write-other, wrote, without, allocate_page-free, internal_init_empty-wrote,
  set_parent_page_num-wrote, insert_logged-wrote, shrink_logged-wrote,
}
use miniob4cqu_db_exp.Index.Split.{TwoPages, TwoPages-second}
use miniob4cqu_db_exp.Index.Whole.{view, parent_in, roots}
use miniob4cqu_db_exp.Index.Whole.Frame.{ne-one}
use miniob4cqu_db_exp.Index.Parents.{HasView, Reparented, set_parents-Reparented}
use miniob4cqu_db_exp.Index.Tree.{Sizes, split}

module _ (K : IndexKeys) where
  -- From `s` to `s'` the nodes `a` and `b` are written to the pages `p` and `new`, and the children
  -- among `moving` take the parent `new`.
  pub record SplitsNode (s s' : Index K) (p new : ℕ) (a b : Node K) (moving : List (Item K))
      (free : List ℕ) : Type 0 where
    pub here : s'.pages p ≡ node a
    pub there : s'.pages new ≡ node b
    pub views : (q : ℕ) → q ≢ p → q ≢ new → view K (s'.pages q) ≡ view K (s.pages q)
    pub moved :
        (q : ℕ) → q ≢ p → q ≢ new → 1 ≤ roots K moving q → parent_in K (s'.pages q) ≡ some new
    pub stays : (q : ℕ) → q ≢ p → q ≢ new → roots K moving q ≡ 0 → s'.pages q ≡ s.pages q
    pub root : s'.root_page ≡ s.root_page
    pub left : s'.free ≡ free

module _ (K : IndexKeys) (sizes : Sizes) where
  -- The steps of the code, with the callees shut.
  abbrev split_steps : ℕ → Step (Index K) ℕ
  split_steps p = do
    new ← allocate_page K
    Internal.init_empty K new
    n ← load K p
    set_parent_page_num K new n.parent
    ignore (Internal.move_half_to K p new)
    return new

  split_lem : (p : ℕ) (s : Index K) → split K sizes false p s ≡ split_steps p s
  unfolding split
  split_lem p s = refl

  abbrev move_steps : ℕ → ℕ → Step (Index K) (Unit {0})
  move_steps p other = do
    n ← load K p
    Internal.append K other (drop (size K n / 2) n.items)
    shrink_logged K p (size K n / 2)

  move_half_to_lem :
      (p other : ℕ) (s : Index K) → Internal.move_half_to K p other s ≡ move_steps p other s
  unfolding Internal.move_half_to
  move_half_to_lem p other s = refl

  abbrev append_steps : ℕ → List (Item K) → Step (Index K) (Unit {0})
  append_steps p items = do
    n ← load K p
    insert_logged K p (size K n) items
    Internal.set_parents K p items

  append_lem :
      (p : ℕ) (items : List (Item K)) (s : Index K)
      → Internal.append K p items s ≡ append_steps p items s
  unfolding Internal.append Internal.insert_items
  append_lem p items s = refl

  HasView-other :
      (pages pages' : ℕ → Page K) (items : List (Item K)) (new : ℕ)
      → ((a : ℕ) → a ≢ new → pages' a ≡ pages a)
      → roots K items new ≡ 0
      → All (HasView K pages) items
      → All (HasView K pages') items
  HasView-other pages pages' [] new same apart h = tt
  HasView-other pages pages' ((k, rid r) ∷ items) new same apart (h, hs) = elim h [ ]
  HasView-other pages pages' ((k, child c) ∷ items) new same apart ((b, l, at), hs) = (
    (b, l, ap (view K) (same c (λ is. ne-one c new (omega (arith, apart)) (sym is))) ∙ at),
    HasView-other pages pages' items new same (omega (arith, apart)) hs,
  )

  module _ (s : Index K) (p new : ℕ) (free : List ℕ) (n : Node K) (at : s.pages p ≡ node n)
      (fresh : s.free ≡ new ∷ free) (apart : p ≢ new) where
    abbrev middle_index : ℕ
    middle_index = size K n / 2

    abbrev upper : List (Item K)
    upper = drop middle_index n.items

    abbrev empty : Node K
    empty = with_parent K n.parent (empty_node K false)

    abbrev low : Node K
    low = with_items K (take middle_index n.items) n

    abbrev initial : Index K
    initial = wrote K (without K s free) new (empty_node K false) (internal_init_empty new)

    abbrev adopted : Index K
    adopted = wrote K initial new empty (set_parent_page new n.parent none)

    abbrev filled : Index K
    filled = wrote K adopted new (with_items K (upper ++ []) empty) (node_insert new 0 upper)

    initial-TwoPages : TwoPages K s initial p new n (empty_node K false) free
    initial-TwoPages = record {
      here = write-other K s.pages new p _ apart ∙ at;
      there = write_self K s.pages new _;
      other = λ q h k. write-other K s.pages new q _ k;
      root = refl;
      left = refl;
    }

    adopted-TwoPages : TwoPages K s adopted p new n empty free
    adopted-TwoPages =
        TwoPages-second K s initial p new n (empty_node K false) empty free
          (set_parent_page new n.parent none) apart initial-TwoPages

    filled-TwoPages : TwoPages K s filled p new n (with_items K (upper ++ []) empty) free
    filled-TwoPages =
        TwoPages-second K s adopted p new n empty (with_items K (upper ++ []) empty) free
          (node_insert new 0 upper) apart adopted-TwoPages

    module _ (s1 : Index K) (run : Internal.set_parents K new upper filled ≡ done tt s1)
        (t : Reparented K new upper filled s1) (p_apart : roots K upper p ≡ 0)
        (new_apart : roots K upper new ≡ 0) where
      abbrev halved : Index K
      halved = wrote K s1 p low (node_remove p middle_index upper)

      p_here : s1.pages p ≡ node n
      p_here = t.stays p p_apart ∙ filled-TwoPages.here

      filling : Internal.append K new upper adopted ≡ done tt s1
      filling =
          append_lem new upper adopted
          ∙ rw (load-node K new empty adopted adopted-TwoPages.there)
              (rw (insert_logged-wrote K adopted new empty adopted-TwoPages.there 0 upper) run)

      halving : Internal.move_half_to K p new adopted ≡ done tt halved
      halving =
          move_half_to_lem p new adopted
          ∙ rw (load-node K p n adopted adopted-TwoPages.here)
              (rw filling (shrink_logged-wrote K s1 p n p_here middle_index))

      split-halved : split K sizes false p s ≡ done new halved
      split-halved =
          split_lem p s
          ∙ rw (allocate_page-free K s new free fresh) (
              rw (internal_init_empty-wrote K (without K s free) new) (
                rw (load-node K p n initial initial-TwoPages.here) (
                  rw
                    (set_parent_page_num-wrote K initial new (empty_node K false)
                      initial-TwoPages.there n.parent)
                    (rw halving refl))))

      halved-SplitsNode : SplitsNode K s halved p new low (with_items K upper empty) upper free
      halved-SplitsNode = record {
        here = write_self K s1.pages p (node low);
        there =
            write-other K s1.pages p new (node low) (λ h. apart (sym h))
            ∙ t.stays new new_apart
            ∙ filled-TwoPages.there
            ∙ ap (λ l. node (with_items K l empty)) (append-nil upper);
        views = λ q h k.
            ap (view K) (write-other K s1.pages p q (node low) h)
            ∙ t.views q
            ∙ ap (view K) (filled-TwoPages.other q h k);
        moved = λ q h k rooted.
            ap (parent_in K) (write-other K s1.pages p q (node low) h) ∙ t.moved q rooted;
        stays = λ q h k rooted.
            write-other K s1.pages p q (node low) h
            ∙ t.stays q rooted
            ∙ filled-TwoPages.other q h k;
        root = t.root;
        left = t.left;
      }

    -- The node keeps its lower half, and the new node under the same parent has the upper one.
    pub split-SplitsNode :
        roots K upper p ≡ 0
        → roots K upper new ≡ 0
        → All (HasView K s.pages) upper
        → (s' : Index K) × (split K sizes false p s ≡ done new s')
          × SplitsNode K s s' p new low (with_items K upper empty) upper free
    split-SplitsNode p_apart new_apart h =
        let (s1, run, t) = set_parents-Reparented K new upper filled (
          HasView-other s.pages filled.pages upper new
            (λ a k.
              write-other K adopted.pages new a _ k
              ∙ write-other K initial.pages new a _ k
              ∙ write-other K s.pages new a _ k)
            new_apart h) in
        (
          halved s1 run t p_apart new_apart,
          split-halved s1 run t p_apart new_apart,
          halved-SplitsNode s1 run t p_apart new_apart,
        )
