-- ===== src/Index/HalfStep.antt =====
-- The insertion into one half of an internal node that was split.
use Prim.Native.Nat.{Ordering}
use miniob4cqu_db_exp.Common.{
  ℕ, suc, ◌≡◌, ◌≢◌, refl, sym, ap, ◌∙◌, false, some, List, [], ◌∷◌, ◌++◌, ◌==◌, ==_iff, Bool-cases,
  inl, inr, arith,
}
use miniob4cqu_db_exp.Common.Step.{Step, done, ◌>>=◌, ◌>>◌}
use miniob4cqu_db_exp.Index.Page.{
  IndexKeys, Key, Item, Node, node, child, Index, LogEntry, set_parent_page, node_insert,
}
use miniob4cqu_db_exp.Index.Node.{key_at, with_items, with_parent, empty_node, set_parent_page_num}
use miniob4cqu_db_exp.Index.Internal
use miniob4cqu_db_exp.Index.LeafOrder.{IsSorted, Before, comparing, position, gt_below}
use miniob4cqu_db_exp.Index.LeafInsert.{inserted}
use miniob4cqu_db_exp.Index.Shape.{All-map}
use miniob4cqu_db_exp.Index.Wrote.{
  write_self, write-other, wrote, key_at-first, set_parent_page_num-wrote,
}
use miniob4cqu_db_exp.Index.Whole.{one, view, parent_in, roots}
use miniob4cqu_db_exp.Index.Whole.Frame.{ne-one, one-eq}
use miniob4cqu_db_exp.Index.Whole.Change.{inserted-append_left, inserted-append_right}
use miniob4cqu_db_exp.Index.Parents.{insert-wrote, write-parent, with_parent-view}
use miniob4cqu_db_exp.Index.SplitNode.{SplitsNode}
use miniob4cqu_db_exp.Index.Tree.{Sizes, insert_into_half}
use miniob4cqu_db_exp.Index.NodeHalves.{positive, NodeHalves, roots-append, roots-inserted}
use miniob4cqu_db_exp.Index.SortedParts.{IsSorted-left, IsSorted-right, lower-Before}

module _ (K : IndexKeys) (sizes : Sizes) (s s2 : Index K) (q np : ℕ) (n : Node K) (x y : Item K)
    (lower upper : List (Item K)) (m : Key K) (new : ℕ) (nn : Node K) (free : List ℕ)
    (t : SplitsNode K s s2 q np
      (with_items K (x ∷ lower) n)
      (with_items K (y ∷ upper) (with_parent K n.parent (empty_node K false)))
      (y ∷ upper)
      free)
    (sorted : IsSorted K (lower ++ y ∷ upper)) (at_new : s2.pages new ≡ node nn) (new_q : new ≢ q)
    (new_np : new ≢ np) (q_np : q ≢ np) (named : parent_in K (s.pages new) ≡ some q)
    (new_apart : roots K (y ∷ upper) new ≡ 0) where
  open K.order use {compare_keys, compare-self, compare-eq, compare-gt, compare-lt, compare-trans}

  abbrev half_steps : Step (Index K) (Unit {0})
  half_steps = do
    middle ← key_at K np 0
    elim (compare_keys m middle) [
      | Ordering.gt ↦ do Internal.insert K np m new; set_parent_page_num K new (some np)
      | _ ↦ do Internal.insert K q m new; set_parent_page_num K new (some q)
    ]

  half_lem : insert_into_half K sizes q np new m s2 ≡ half_steps s2
  unfolding insert_into_half
  half_lem = refl

  abbrev pub Half : Type 0
  Half =
      (s' : Index K) × (h : NodeHalves K s s' q np n x (lower ++ y ∷ upper) m new free)
      × (insert_into_half K sizes q np new m s2 ≡ done tt s')

  module _ (above : compare_keys m y.0 ≡ Ordering.gt) where
    abbrev high : Node K
    high =
        with_items K (y ∷ inserted K m (child new) upper)
          (with_parent K n.parent (empty_node K false))

    abbrev entry : LogEntry K
    entry = node_insert np (suc (position K m upper)) ((m, child new) ∷ [])

    abbrev filled : Index K
    filled = wrote K s2 np high entry

    abbrev adopted : Index K
    adopted =
        wrote K filled new (with_parent K (some np) nn) (set_parent_page new (some np) nn.parent)

    filled_new : filled.pages new ≡ node nn
    filled_new = write-other K s2.pages np new (node high) new_np ∙ at_new

    -- Pages but the three are as after the split.
    elsewhere : (a : ℕ) → a ≢ np → a ≢ new → adopted.pages a ≡ s2.pages a
    elsewhere a h k =
        write-other K filled.pages new a _ k ∙ write-other K s2.pages np a (node high) h

    runs : insert_into_half K sizes q np new m s2 ≡ done tt adopted
    runs =
        half_lem
        ∙ rw (key_at-first K np s2 _ y upper t.there refl) (
            rw above (
              rw
                (insert-wrote K s2 np _ m new y upper t.there refl
                  (IsSorted-right K lower (y ∷ upper) sorted).1)
                (rw (set_parent_page_num-wrote K filled new nn filled_new (some np)) refl)))

    in_upper : Half
    in_upper = (
      adopted,
      record {
        lower = lower;
        middle = y;
        upper = inserted K m (child new) upper;
        whole =
            inserted-append_right K m (child new) lower (y ∷ upper) (
              All-map K (λ z. Before K z y) (λ z. comparing K m z ≡ Ordering.lt) lower
                (λ z h. compare-trans z.0 y.0 m h (compare-gt m y.0 above))
                (lower-Before K y lower upper sorted))
            ∙ ap (λ l. lower ++ l)
                (inserted-append_right K m (child new) (y ∷ []) upper (compare-gt m y.0 above, tt));
        here =
            write-other K filled.pages new q _ (λ h. new_q (sym h))
            ∙ write-other K s2.pages np q (node high) q_np
            ∙ t.here;
        there =
            write-other K filled.pages new np _ (λ h. new_np (sym h))
            ∙ write_self K s2.pages np (node high);
        views = λ a h k.
            with_parent-view K filled new nn (some np) a filled_new
            ∙ ap (view K) (write-other K s2.pages np a (node high) k)
            ∙ t.views a h k;
        moved = λ a h k rooted. elim (Bool-cases (one new a == 0)) [
          | inl other ↦
              ap (parent_in K) (elsewhere a k (ne-one new a ((==_iff (one new a) 0).0 other)))
              ∙ t.moved a h k
                  (omega (arith, roots-inserted K m new upper a, (==_iff (one new a) 0).0 other))
          | inr same ↦ write-parent K filled new nn np a (positive (one new a) same)
        ];
        kept = λ a h k rooted. ap (parent_in K) (
            elsewhere a k (ne-one new a (omega (arith, roots-inserted K m new upper a, rooted)))
            ∙ t.stays a h k (omega (arith, roots-inserted K m new upper a, rooted)));
        stays = λ a h k e rooted.
            elsewhere a k e
            ∙ t.stays a h k (omega (arith, roots-append K lower (y ∷ upper) a, rooted));
        root = t.root;
        left = t.left;
      },
      runs,
    )

  module _ (below : compare_keys m y.0 ≡ Ordering.lt) where
    abbrev low : Node K
    low = with_items K (x ∷ inserted K m (child new) lower) n

    abbrev low_filled : Index K
    low_filled = wrote K s2 q low (node_insert q (suc (position K m lower)) ((m, child new) ∷ []))

    abbrev low_adopted : Index K
    low_adopted =
        wrote K low_filled new (with_parent K (some q) nn) (set_parent_page new (some q) nn.parent)

    low_new : low_filled.pages new ≡ node nn
    low_new = write-other K s2.pages q new (node low) new_q ∙ at_new

    low_elsewhere : (a : ℕ) → a ≢ q → a ≢ new → low_adopted.pages a ≡ s2.pages a
    low_elsewhere a h k =
        write-other K low_filled.pages new a _ k ∙ write-other K s2.pages q a (node low) h

    low_runs : IsSorted K lower → insert_into_half K sizes q np new m s2 ≡ done tt low_adopted
    low_runs sorted_low =
        half_lem
        ∙ rw (key_at-first K np s2 _ y upper t.there refl) (
            rw below (
              rw (insert-wrote K s2 q _ m new x lower t.here refl sorted_low)
                (rw (set_parent_page_num-wrote K low_filled new nn low_new (some q)) refl)))

    in_lower : IsSorted K lower → Half
    in_lower sorted_low = (
      low_adopted,
      record {
        lower = inserted K m (child new) lower;
        middle = y;
        upper = upper;
        whole = inserted-append_left K m (child new) lower (y ∷ upper) (
          compare-lt m y.0 below,
          All-map K (Before K y) (λ z. comparing K m z ≡ Ordering.gt) upper
              (λ z h. gt_below K m y z (compare-lt m y.0 below) h)
              (IsSorted-right K lower (y ∷ upper) sorted).0,
        );
        here =
            write-other K low_filled.pages new q _ (λ h. new_q (sym h))
            ∙ write_self K s2.pages q (node low);
        there =
            write-other K low_filled.pages new np _ (λ h. new_np (sym h))
            ∙ write-other K s2.pages q np (node low) (λ h. q_np (sym h))
            ∙ t.there;
        views = λ a h k.
            with_parent-view K low_filled new nn (some q) a low_new
            ∙ ap (view K) (write-other K s2.pages q a (node low) h)
            ∙ t.views a h k;
        moved = λ a h k rooted.
            ap (parent_in K) (
              low_elsewhere a h
                (λ e. absurd (omega (arith, rooted, ap (roots K (y ∷ upper)) e, new_apart))))
            ∙ t.moved a h k rooted;
        kept = λ a h k rooted. elim (Bool-cases (one new a == 0)) [
          | inl other ↦ ap (parent_in K) (
              low_elsewhere a h (ne-one new a ((==_iff (one new a) 0).0 other))
              ∙ t.stays a h k rooted)
          | inr same ↦
              write-parent K low_filled new nn q a (positive (one new a) same)
              ∙ sym (
                  ap (λ b. parent_in K (s.pages b)) (sym (one-eq new a (positive (one new a) same)))
                  ∙ named)
        ];
        stays = λ a h k e rooted.
            low_elsewhere a h e
            ∙ t.stays a h k (omega (arith, roots-append K lower (y ∷ upper) a, rooted));
        root = t.root;
        left = t.left;
      },
      low_runs sorted_low,
    )

  pub insert_into_half-NodeHalves : compare_keys m y.0 ≢ Ordering.eq → Half
  insert_into_half-NodeHalves differs = by_order (compare_keys m y.0) refl
    where
      by_order : (o : Ordering) → compare_keys m y.0 ≡ o → Half
      by_order Ordering.lt k = in_lower k (IsSorted-left K lower (y ∷ upper) sorted)
      by_order Ordering.eq k = absurd (differs k)
      by_order Ordering.gt k = in_upper k
