-- ===== src/Index/Whole/LeafCases.antt =====
-- The two ways of an insertion into a leaf that has not the key: with room, and by a split.
use miniob4cqu_db_exp.Common.{
  ℕ, zero, ◌+◌, ◌-◌, ◌≤◌, ◌≡◌, ◌≢◌, refl, sym, ap, ◌∙◌, subst, Bool, true, false, Option, some,
  List, [], ◌∷◌, ◌++◌, All, length, ltb, Rc, arith,
}
use miniob4cqu_db_exp.Common.Step.{Step, done, fail}
use miniob4cqu_db_exp.Index.Page.{
  IndexKeys, Key, Item, Node, node, rid, child, Rid, Index, node_insert,
}
use miniob4cqu_db_exp.Index.Node.{size, with_items}
use miniob4cqu_db_exp.Index.LeafOrder.{IsSorted, found, position, All-insert, Before}
use miniob4cqu_db_exp.Index.LeafInsert.{inserted, inserted-IsSorted}
use miniob4cqu_db_exp.Index.Shape.{AtLeast, Under, All-map, Before-AtLeast}
use miniob4cqu_db_exp.Index.Wrote.{wrote, write_self, write-other, insert_logged-wrote}
use miniob4cqu_db_exp.Index.FullLeaf.{Halves, insert_into_full_leaf-Halves, insert_lem}
use miniob4cqu_db_exp.Index.SortedParts.{IsSorted-left, IsSorted-right, lower-Before}
use miniob4cqu_db_exp.Index.Tree.{Sizes, insert_entry_into_leaf_node, insert_entry_into_parent}
use miniob4cqu_db_exp.Index.Whole.{one, occurs, view, parent_in, Over, Tree}
use miniob4cqu_db_exp.Index.Whole.Frame.{one_self, ne-one}
use miniob4cqu_db_exp.Index.Whole.Change.{Change}
use miniob4cqu_db_exp.Index.Whole.Result.{Distinct, Pair}
use miniob4cqu_db_exp.Index.Whole.Halved.{Over-key, Under-key, All-parts}
use miniob4cqu_db_exp.Index.Whole.Ascend.{some_free}
use miniob4cqu_db_exp.Index.Whole.LeafSteps.{by_room, to_lookup, Over-after}

module _ (K : IndexKeys) (sizes : Sizes) (fuel p : ℕ) (key : Key K) (r : Rid) where
  open K.order use {compare_keys, compare-self, compare-eq, compare-gt, compare-lt, compare-trans}

  module _ (s : Index K) (low high : Option (Key K)) (own : ℕ → ℕ) (n : Node K)
      (at : s.pages p ≡ node n) (leaf : n.is_leaf ≡ true) (sorted : IsSorted K n.items)
      (above : All (AtLeast K low) n.items) (below : All (Under K high) n.items)
      (owns : (a : ℕ) → own a ≡ one p a) (distinct : Distinct K sizes own s)
      (key_above : AtLeast K low (key, rid r)) (key_below : Under K high (key, rid r))
      (absent : found K key n.items ≡ false) where
    abbrev index : ℕ
    index = position K key n.items

    abbrev grown : List (Item K)
    grown = inserted K key (rid r) n.items

    grown-IsSorted : IsSorted K grown
    grown-IsSorted = inserted-IsSorted K key (rid r) n.items sorted absent

    grown_above : All (AtLeast K low) grown
    grown_above = All-insert K (AtLeast K low) index (key, rid r) n.items key_above above

    grown_below : All (Under K high) grown
    grown_below = All-insert K (Under K high) index (key, rid r) n.items key_below below

    to_room :
        (room : Bool)
        → ltb (size K n) sizes.leaf_max_size ≡ room
        → insert_entry_into_leaf_node K sizes fuel p key r s
          ≡ by_room K sizes fuel p key r index room s
    to_room room is =
        to_lookup K sizes fuel p key r s n at sorted
        ∙ ap
            (λ b.
              (elim b as (λ x. Step (Index K) (Unit {0})) [
                | true ↦ fail Rc.record_duplicate_key
                | false ↦ by_room K sizes fuel p key r index (ltb (size K n) sizes.leaf_max_size)
              ])
                s)
            absent
        ∙ ap (λ room. by_room K sizes fuel p key r index room s) is

    -- The leaf has room.
    abbrev pub filled : Index K
    filled = wrote K s p (with_items K grown n) (node_insert p index ((key, rid r) ∷ []))

    pub room-result :
        ltb (size K n) sizes.leaf_max_size ≡ true
        → (insert_entry_into_leaf_node K sizes fuel p key r s ≡ done tt filled)
          × Change K key r 1 s filled own own n.items grown
          × Tree K filled.pages zero low high p own grown
          × (parent_in K (filled.pages p) ≡ parent_in K (s.pages p))
    room-result room = (
      to_room true room
          ∙ insert_lem K sizes p index key r s
          ∙ insert_logged-wrote K s p n at index ((key, rid r) ∷ []),
      record {
        root = refl;
        counted = λ a. refl;
        other = λ a h. write-other K s.pages p a _ (ne-one p a (omega (arith, owns a, h)));
        is = refl;
        room = omega arith;
      },
      (
        ap (view K) (write_self K s.pages p _) ∙ ap (λ b. some (b, grown)) leaf,
        grown-IsSorted,
        grown_above,
        grown_below,
        owns,
      ),
      ap (parent_in K) (write_self K s.pages p _) ∙ ap (parent_in K) (sym at),
    )

    -- The leaf is full.
    module _ (new : ℕ) (free : List ℕ) (fresh : s.free ≡ new ∷ free) (s' : Index K)
        (h : Halves K sizes p new index n (key, rid r) free s s') where
      abbrev both : ℕ → ℕ
      both a = one p a + one new a

      halves-Change : Change K key r 1 s s' own both n.items (h.lower ++ h.upper)
      halves-Change = record {
        root = h.pages.root;
        counted = λ a. omega (arith, owns a, ap (occurs a) fresh, ap (occurs a) h.pages.left);
        other = λ a k.
            h.pages.other a (ne-one p a (omega (arith, owns a, k)))
              (ne-one new a (omega (arith, ap (occurs a) fresh, k)));
        is = h.whole;
        room = omega (arith, ap length fresh, ap length h.pages.left);
      }

      parted : h.lower ++ h.middle ∷ h.rest ≡ grown
      parted = ap (λ l. h.lower ++ l) (sym h.starts) ∙ h.whole

      in_order : IsSorted K (h.lower ++ h.middle ∷ h.rest)
      in_order = subst (IsSorted K) (sym parted) grown-IsSorted

      aboves : All (AtLeast K low) h.lower × AtLeast K low h.middle × All (AtLeast K low) h.rest
      aboves =
          All-parts K (AtLeast K low) h.lower h.middle h.rest
            (subst (All (AtLeast K low)) (sym parted) grown_above)

      belows : All (Under K high) h.lower × Under K high h.middle × All (Under K high) h.rest
      belows =
          All-parts K (Under K high) h.lower h.middle h.rest
            (subst (All (Under K high)) (sym parted) grown_below)

      upper_order : IsSorted K (h.middle ∷ h.rest)
      upper_order = IsSorted-right K h.lower (h.middle ∷ h.rest) in_order

      lower_order : All (Under K (some h.middle.0)) h.lower
      lower_order = lower-Before K h.middle h.lower h.rest in_order

      middle-Over : Over K low h.middle
      middle-Over =
          Over-after K sizes fuel p key r low h.head h.middle
            (subst (All (AtLeast K low)) h.some_lower aboves.0).0
            (subst (All (Under K (some h.middle.0))) h.some_lower lower_order).0

      upper_above : All (AtLeast K (some h.middle.0)) (h.middle ∷ h.rest)
      upper_above = (
        λ k. absurd (ground (arith, k, compare-self h.middle.0)),
        All-map K (Before K h.middle) (AtLeast K (some h.middle.0)) h.rest
            (λ z. Before-AtLeast K h.middle z) upper_order.0,
      )

      halves-Pair : Pair K sizes zero low high p new h.middle.0 s s' both (h.lower ++ h.upper)
      halves-Pair = record {
        first = one p;
        later = one new;
        left = h.lower;
        right = h.upper;
        owns = λ a. refl;
        is = refl;
        lower = (
          ap (view K) h.pages.here ∙ ap (λ b. some (b, h.lower)) leaf,
          IsSorted-left K h.lower (h.middle ∷ h.rest) in_order,
          aboves.0,
          lower_order,
          λ a. refl,
        );
        upper = (
          ap (view K) h.pages.there,
          subst (IsSorted K) (sym h.starts) upper_order,
          subst (All (AtLeast K (some h.middle.0))) (sym h.starts) upper_above,
          subst (All (Under K high)) (sym h.starts) (belows.1, belows.2),
          λ a. refl,
        );
        over = Over-key K low h.middle (child new) middle-Over;
        under = Under-key K high h.middle (child new) belows.1;
        named = ap (parent_in K) h.pages.here ∙ ap (parent_in K) (sym at);
        named_new = ap (parent_in K) h.pages.there ∙ ap (parent_in K) (sym at);
      }

    pub full-result :
        ltb (size K n) sizes.leaf_max_size ≡ false
        → 2 ≤ sizes.leaf_max_size
        → 1 ≤ length s.free
        → (s' : Index K) × (own' : ℕ → ℕ) × (items' : List (Item K)) × (new : ℕ) × (m : Key K)
          × Change K key r 1 s s' own own' n.items items'
          × ((insert_entry_into_leaf_node K sizes fuel p key r s
                ≡ insert_entry_into_parent K sizes (fuel - 0) p new m s')
              × Pair K sizes zero low high p new m s s' own' items')
    full-result full two some_page =
        let (new, free, fresh) = some_free s.free some_page in
        let apart : p ≢ new = λ same. absurd (
          omega
            (arith, owns p, distinct p, one_self p, ap (occurs p) fresh, ap (λ b. one b p) same)) in
        let (s', h, run) =
          insert_into_full_leaf-Halves K sizes fuel p new index key r n s free at fresh apart
            (ground (arith, full)) in
        (
          s',
          both new free fresh s' h,
          h.lower ++ h.upper,
          new,
          h.middle.0,
          halves-Change new free fresh s' h,
          (
            to_room false full
                ∙ run
                ∙ ap (λ f. insert_entry_into_parent K sizes f p new h.middle.0 s') (omega arith),
            halves-Pair new free fresh s' h,
          ),
        )
