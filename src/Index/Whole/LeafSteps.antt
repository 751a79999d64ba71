-- ===== src/Index/Whole/LeafSteps.antt =====
-- The steps of an insertion into a leaf.
use Prim.Native.Nat.{Ordering}
use miniob4cqu_db_exp.Common.{ℕ, ◌≡◌, refl, ap, ◌∙◌, Bool, true, false, Option, none, some, ltb, Rc}
use miniob4cqu_db_exp.Common.Step.{Step, fail, ◌>>=◌}
use miniob4cqu_db_exp.Index.Page.{IndexKeys, Key, Item, Node, node, Rid, Index}
use miniob4cqu_db_exp.Index.Node.{load, size}
use miniob4cqu_db_exp.Index.Leaf
use miniob4cqu_db_exp.Index.LeafOrder.{IsSorted, Before, lookup-first_not_below, comparing}
use miniob4cqu_db_exp.Index.SearchBounds.{first_not_below}
use miniob4cqu_db_exp.Index.Shape.{AtLeast}
use miniob4cqu_db_exp.Index.Wrote.{load-node}
use miniob4cqu_db_exp.Index.Tree.{Sizes, insert_entry_into_leaf_node, insert_into_full_leaf}
use miniob4cqu_db_exp.Index.Whole.{Over}

module _ (K : IndexKeys) (sizes : Sizes) (fuel p : ℕ) (key : Key K) (r : Rid) where
  open K.order use {compare_keys, compare-self, compare-eq, compare-gt, compare-lt, compare-trans}

  -- The steps of the code, with the callees shut.
  abbrev pub by_room : ℕ → Bool → Step (Index K) (Unit {0})
  by_room index room = elim room [
    | true ↦ Leaf.insert K p index key r
    | false ↦ insert_into_full_leaf K sizes fuel p index key r
  ]

  abbrev pub by_lookup : Bool → ℕ × Bool → Step (Index K) (Unit {0})
  by_lookup room l = elim l.1 as (λ x. Step (Index K) (Unit {0})) [
    | true ↦ fail Rc.record_duplicate_key
    | false ↦ by_room l.0 room
  ]

  abbrev leaf_steps : Step (Index K) (Unit {0})
  leaf_steps = do n ← load K p; by_lookup (ltb (size K n) sizes.leaf_max_size) (Leaf.lookup K n key)

  leaf_lem : (s : Index K) → insert_entry_into_leaf_node K sizes fuel p key r s ≡ leaf_steps s
  unfolding insert_entry_into_leaf_node
  leaf_lem s = refl

  pub to_lookup :
      (s : Index K) (n : Node K)
      → s.pages p ≡ node n
      → IsSorted K n.items
      → insert_entry_into_leaf_node K sizes fuel p key r s
        ≡ by_lookup
            (ltb (size K n) sizes.leaf_max_size)
            (first_not_below (comparing K key) n.items)
            s
  to_lookup s n at sorted =
      leaf_lem s
      ∙ rw (load-node K p n s at) refl
      ∙ ap (λ l. by_lookup (ltb (size K n) sizes.leaf_max_size) l s)
          (lookup-first_not_below K n key sorted)

  pub Over-after :
      (low : Option (Key K)) (x y : Item K) → AtLeast K low x → Before K x y → Over K low y
  Over-after none x y h k = tt
  Over-after (some low) x y h k = by_order (compare_keys low x.0) refl
    where
      by_order : (o : Ordering) → compare_keys low x.0 ≡ o → compare_keys low y.0 ≡ Ordering.lt
      by_order Ordering.lt e = compare-trans low x.0 y.0 e k
      by_order Ordering.eq e = ap (λ b. compare_keys b y.0) (compare-eq low x.0 e) ∙ k
      by_order Ordering.gt e = absurd (h e)
