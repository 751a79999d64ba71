-- ===== src/Index/Split.antt =====
-- `split` of a leaf and what follows in the full leaf, step by step, up to the parents.
use mathlib.Core.List.{append-nil}
use miniob4cqu_db_exp.Common.{
  subst, ℕ, ◌/◌, ◌≡◌, ◌≢◌, refl, sym, ◌∙◌, true, none, List, [], ◌∷◌, ◌++◌, take, drop,
}
use miniob4cqu_db_exp.Common.Step.{Step, done, ◌>>=◌, ◌>>◌, return, ignore}
use miniob4cqu_db_exp.Index.Page.{
  IndexKeys, Item, Node, node, Index, LogEntry, leaf_init_empty, set_parent_page, node_insert,
  node_remove,
}
use miniob4cqu_db_exp.Index.Node.{
  allocate_page, load, size, with_items, with_parent, empty_node, insert_logged, shrink_logged,
  set_parent_page_num,
}
use miniob4cqu_db_exp.Index.Leaf
use miniob4cqu_db_exp.Index.Wrote.{
  load-node, write_self, write-other, wrote, without, allocate_page-free, init_empty-wrote,
  set_parent_page_num-wrote, insert_logged-wrote, shrink_logged-wrote,
}
use miniob4cqu_db_exp.Index.Tree.{Sizes, split}

module _ (K : IndexKeys) where
  -- From `s` to `s'` only two pages are written, which hold the nodes `a` and `b` at the end, and
  -- `free` is left of the free pages.
  pub record TwoPages (s s' : Index K) (p new : ℕ) (a b : Node K) (free : List ℕ) : Type 0 where
    pub here : s'.pages p ≡ node a
    pub there : s'.pages new ≡ node b
    pub other : (q : ℕ) → q ≢ p → q ≢ new → s'.pages q ≡ s.pages q
    pub root : s'.root_page ≡ s.root_page
    pub left : s'.free ≡ free

  module _ (s s' : Index K) (p new : ℕ) (a b c : Node K) (free : List ℕ) (e : LogEntry K)
      (apart : p ≢ new) where
    pub TwoPages-first : TwoPages s s' p new a b free → TwoPages s (wrote K s' p c e) p new c b free
    TwoPages-first t = record {
      here = write_self K s'.pages p (node c);
      there = write-other K s'.pages p new (node c) (λ h. apart (sym h)) ∙ t.there;
      other = λ q h k. write-other K s'.pages p q (node c) h ∙ t.other q h k;
      root = t.root;
      left = t.left;
    }

    pub TwoPages-second :
        TwoPages s s' p new a b free → TwoPages s (wrote K s' new c e) p new a c free
    TwoPages-second t = record {
      here = write-other K s'.pages new p (node c) apart ∙ t.here;
      there = write_self K s'.pages new (node c);
      other = λ q h k. write-other K s'.pages new q (node c) k ∙ t.other q h k;
      root = t.root;
      left = t.left;
    }

module _ (K : IndexKeys) (sizes : Sizes) where
  -- The steps of the code, with the callees shut.
  abbrev split_steps : ℕ → Step (Index K) ℕ
  split_steps p = do
    new ← allocate_page K
    Leaf.init_empty K new
    n ← load K p
    set_parent_page_num K new n.parent
    ignore (Leaf.move_half_to K p new)
    return new

  split_lem : (p : ℕ) (s : Index K) → split K sizes true p s ≡ split_steps p s
  unfolding split
  split_lem p s = refl

  abbrev move_steps : ℕ → ℕ → Step (Index K) (Unit {0})
  move_steps p other = do
    n ← load K p
    Leaf.append K other (drop (size K n / 2) n.items)
    shrink_logged K p (size K n / 2)

  move_half_to_lem :
      (p other : ℕ) (s : Index K) → Leaf.move_half_to K p other s ≡ move_steps p other s
  unfolding Leaf.move_half_to
  move_half_to_lem p other s = refl

  abbrev append_steps : ℕ → List (Item K) → Step (Index K) (Unit {0})
  append_steps p items = do n ← load K p; insert_logged K p (size K n) items

  append_lem :
      (p : ℕ) (items : List (Item K)) (s : Index K)
      → Leaf.append K p items s ≡ append_steps p items s
  unfolding Leaf.append
  append_lem p items s = refl

  module _ (s : Index K) (p new : ℕ) (free : List ℕ) (n : Node K) (at : s.pages p ≡ node n)
      (fresh : s.free ≡ new ∷ free) (apart : p ≢ new) where
    abbrev middle_index : ℕ
    middle_index = size K n / 2

    abbrev upper : List (Item K)
    upper = drop middle_index n.items

    abbrev initial : Index K
    initial = wrote K (without K s free) new (empty_node K true) (leaf_init_empty new)

    abbrev adopted : Index K
    adopted =
        wrote K initial new (with_parent K n.parent (empty_node K true))
          (set_parent_page new n.parent none)

    abbrev filled : Index K
    filled =
        wrote K adopted new
          (with_items K (upper ++ []) (with_parent K n.parent (empty_node K true)))
          (node_insert new 0 upper)

    abbrev halved : Index K
    halved =
        wrote K filled p (with_items K (take middle_index n.items) n)
          (node_remove p middle_index upper)

    abbrev empty : Node K
    empty = with_parent K n.parent (empty_node K true)

    initial-TwoPages : TwoPages K s initial p new n (empty_node K true) free
    initial-TwoPages = record {
      here = write-other K s.pages new p _ apart ∙ at;
      there = write_self K s.pages new _;
      other = λ q h k. write-other K s.pages new q _ k;
      root = refl;
      left = refl;
    }

    adopted-TwoPages : TwoPages K s adopted p new n empty free
    adopted-TwoPages =
        TwoPages-second K s initial p new n (empty_node K true) empty free
          (set_parent_page new n.parent none) apart initial-TwoPages

    filled-TwoPages : TwoPages K s filled p new n (with_items K (upper ++ []) empty) free
    filled-TwoPages =
        TwoPages-second K s adopted p new n empty (with_items K (upper ++ []) empty) free
          (node_insert new 0 upper) apart adopted-TwoPages

    halved-TwoPages :
        TwoPages K s halved p new
          (with_items K (take middle_index n.items) n)
          (with_items K (upper ++ []) empty)
          free
    halved-TwoPages =
        TwoPages-first K s filled p new n (with_items K (upper ++ []) empty)
          (with_items K (take middle_index n.items) n) free (node_remove p middle_index upper) apart
          filled-TwoPages

    filling : Leaf.append K new upper adopted ≡ done tt filled
    filling =
        append_lem new upper adopted
        ∙ rw (load-node K new empty adopted adopted-TwoPages.there)
            (insert_logged-wrote K adopted new empty adopted-TwoPages.there 0 upper)

    halving : Leaf.move_half_to K p new adopted ≡ done tt halved
    halving =
        move_half_to_lem p new adopted
        ∙ rw (load-node K p n adopted adopted-TwoPages.here)
            (rw filling (shrink_logged-wrote K filled p n filled-TwoPages.here middle_index))

    split-halved : split K sizes true p s ≡ done new halved
    split-halved =
        split_lem p s
        ∙ rw (allocate_page-free K s new free fresh) (
            rw (init_empty-wrote K (without K s free) new) (
              rw (load-node K p n initial initial-TwoPages.here) (
                rw
                  (set_parent_page_num-wrote K initial new (empty_node K true)
                    initial-TwoPages.there n.parent)
                  (rw halving refl))))

    -- The leaf keeps its lower half, and the new leaf under the same parent has the upper one.
    pub split-TwoPages :
        (s' : Index K) × (split K sizes true p s ≡ done new s')
        × TwoPages K s s' p new
            (with_items K (take middle_index n.items) n)
            (with_items K upper empty)
            free
    split-TwoPages = (
      halved,
      split-halved,
      subst
          (λ l.
            TwoPages K s halved p new (with_items K (take middle_index n.items) n)
              (with_items K l empty) free)
          (append-nil upper) halved-TwoPages,
    )
