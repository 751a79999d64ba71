-- ===== src/Index/ParentSplit.antt =====
-- `insert_entry_into_parent` under a parent that is full.
use Prim.Native.Nat.{Ordering}
use miniob4cqu_db_exp.Common.{
  ℕ, zero, suc, ◌-◌, ◌/◌, ◌<◌, ◌≤◌, ◌≡◌, ◌≢◌, refl, sym, ap, ◌∙◌, subst, false, none, some, List,
  [], ◌∷◌, ◌++◌, All, length, take, drop, ltb, inl, inr, arith,
}
use miniob4cqu_db_exp.Common.Step.{done}
use miniob4cqu_db_exp.Index.Page.{IndexKeys, Key, Item, Node, node, child, Index}
use miniob4cqu_db_exp.Index.Node.{size, with_items, with_parent, empty_node}
use miniob4cqu_db_exp.Index.LeafOrder.{IsSorted, comparing, slot_of, found, found-slot_of}
use miniob4cqu_db_exp.Index.LeafInsert.{inserted}
use miniob4cqu_db_exp.Index.Wrote.{key_at-first}
use miniob4cqu_db_exp.Index.Whole.{parent_in, roots}
use miniob4cqu_db_exp.Index.Parents.{HasView}
use miniob4cqu_db_exp.Index.SplitNode.{SplitsNode, split-SplitsNode}
use miniob4cqu_db_exp.Index.HalfStep.{insert_into_half-NodeHalves}
use miniob4cqu_db_exp.Index.NodeHalves.{NodeHalves, roots-append}
use miniob4cqu_db_exp.Index.ParentStep.{to_room}
use miniob4cqu_db_exp.Index.Tree.{Sizes, split, insert_entry_into_parent}

-- A list is cut in front of an item.
cut {ℓ} :
    {A : Type ℓ} (j : ℕ) (xs : List A)
    → j < length xs
    → (lower : List A) × (y : A) × (upper : List A) × (take j xs ≡ lower)
      × (drop j xs ≡ y ∷ upper)
      × (xs ≡ lower ++ y ∷ upper)
cut j [] h = absurd (omega arith)
cut zero (x ∷ xs) h = ([], x, xs, refl, refl, refl)
cut (suc j) (x ∷ xs) h =
    let (lower, y, upper, low, high, is) = cut j xs (omega arith) in
    (x ∷ lower, y, upper, ap (◌∷◌ x) low, high, ap (◌∷◌ x) is)

module _ (K : IndexKeys) where
  open K.order use {compare_keys, compare-self, compare-eq, compare-gt, compare-lt, compare-trans}

  pub All-right : (P : Item K → Type 0) (xs ys : List (Item K)) → All P (xs ++ ys) → All P ys
  All-right P [] ys h = h
  All-right P (x ∷ xs) ys h = All-right P xs ys h.1

  has_slot :
      (m : Key K) (xs : List (Item K)) (y : Item K) (ys : List (Item K))
      → comparing K m y ≡ Ordering.eq
      → slot_of K m (xs ++ y ∷ ys) ≢ none
  has_slot m [] y ys k h = ground (arith, k, h)
  has_slot m (x ∷ xs) y ys k h = by_order (comparing K m x) h (has_slot m xs y ys k)
    where
      by_order :
          (o : Ordering)
          → elim o [ Ordering.eq ↦ some x.1 | _ ↦ slot_of K m (xs ++ y ∷ ys) ] ≡ none
          → slot_of K m (xs ++ y ∷ ys) ≢ none
          → ⊥
      by_order Ordering.lt h later = later h
      by_order Ordering.eq h later = absurd (ground (arith, h))
      by_order Ordering.gt h later = later h

  absent-differs :
      (m : Key K) (xs : List (Item K)) (y : Item K) (ys : List (Item K))
      → IsSorted K (xs ++ y ∷ ys)
      → found K m (xs ++ y ∷ ys) ≡ false
      → compare_keys m y.0 ≢ Ordering.eq
  absent-differs m xs y ys sorted absent same = elim (found-slot_of K m (xs ++ y ∷ ys) sorted) [
    | inl (is, slot, has) ↦ absurd (cc (sym absent ∙ is))
    | inr (is, lacks) ↦
        has_slot m xs y ys (ap (compare_keys y.0) (compare-eq m y.0 same) ∙ compare-self y.0) lacks
  ]

module _ (K : IndexKeys) (sizes : Sizes) (fuel c new q np : ℕ) (m : Key K) (s : Index K)
    (n nn : Node K) (x : Item K) (rest : List (Item K)) (free : List ℕ)
    (from_child : parent_in K (s.pages c) ≡ some q) (named : parent_in K (s.pages new) ≡ some q)
    (at : s.pages q ≡ node n) (is : n.items ≡ x ∷ rest) (sorted : IsSorted K rest)
    (at_new : s.pages new ≡ node nn) (fresh : s.free ≡ np ∷ free) (new_q : new ≢ q) (q_np : q ≢ np)
    (new_np : new ≢ np) (q_apart : roots K (x ∷ rest) q ≡ 0) (np_apart : roots K (x ∷ rest) np ≡ 0)
    (new_apart : roots K (x ∷ rest) new ≡ 0) (have : All (HasView K s.pages) (x ∷ rest))
    (absent : found K m rest ≡ false) where
  abbrev Split : Type 0
  Split =
      (s' : Index K) × (h : NodeHalves K s s' q np n x rest m new free) × (insert_entry_into_parent
          K sizes (suc fuel) c new m s
        ≡ insert_entry_into_parent K sizes fuel q np h.middle.0 s')

  abbrev empty : Node K
  empty = with_parent K n.parent (empty_node K false)

  module _ (full : ltb (size K n) sizes.internal_max_size ≡ false) (lower upper : List (Item K))
      (y : Item K) (low : take (size K n / 2) n.items ≡ x ∷ lower)
      (high : drop (size K n / 2) n.items ≡ y ∷ upper) (whole : rest ≡ lower ++ y ∷ upper) where
    apart_upper : (a : ℕ) → roots K (x ∷ rest) a ≡ 0 → roots K (y ∷ upper) a ≡ 0
    apart_upper a h =
        omega (arith, h, ap (λ l. roots K l a) whole, roots-append K lower (y ∷ upper) a)

    after_split :
        (s2 : Index K)
        → split K sizes false q s ≡ done np s2
        → SplitsNode K s s2 q np
            (with_items K (x ∷ lower) n)
            (with_items K (y ∷ upper) empty)
            (y ∷ upper)
            free
        → Split
    after_split s2 run t =
        let parts = subst (IsSorted K) whole sorted in
        let new_here = t.stays new new_q new_np (apart_upper new new_apart) ∙ at_new in
        let (s3, halves, half_run) =
          insert_into_half-NodeHalves K sizes s s2 q np n x y lower upper m new nn free t parts
            new_here new_q new_np q_np named (apart_upper new new_apart)
            (absent-differs K m lower y upper parts
              (subst (λ l. found K m l ≡ false) whole absent)) in
        (
          s3,
          record {
            lower = halves.lower;
            middle = halves.middle;
            upper = halves.upper;
            whole = ap (inserted K m (child new)) whole ∙ halves.whole;
            here = halves.here;
            there = halves.there;
            views = halves.views;
            moved = halves.moved;
            kept = halves.kept;
            stays =
                λ a h k e rooted. halves.stays a h k e (ap (λ l. roots K l a) (sym whole) ∙ rooted);
            root = halves.root;
            left = halves.left;
          },
          to_room K sizes fuel c new q m s n false from_child at full
              ∙ rw run (
                  rw half_run (
                    rw (key_at-first K np s3 _ halves.middle halves.upper halves.there refl) refl)),
        )

    split_first : Split
    split_first =
        let (s2, run, t) =
          split-SplitsNode K sizes s q np free n at fresh q_np
            (ap (λ l. roots K l q) high ∙ apart_upper q q_apart)
            (ap (λ l. roots K l np) high ∙ apart_upper np np_apart)
            (subst (All (HasView K s.pages)) (sym high) (
              All-right K (HasView K s.pages) lower (y ∷ upper)
                (subst (All (HasView K s.pages)) whole have.1))) in
        after_split s2 run (
          subst
            (λ l.
              SplitsNode K s s2 q np (with_items K l n) (with_items K (y ∷ upper) empty) (y ∷ upper)
                free)
            low
            (subst
              (λ l.
                SplitsNode K s s2 q np (with_items K (take (size K n / 2) n.items) n)
                  (with_items K l empty) l free)
              high t))

  pub insert_entry_into_parent-NodeHalves :
      ltb (size K n) sizes.internal_max_size ≡ false → 2 ≤ size K n → Split
  insert_entry_into_parent-NodeHalves full two =
      let long : size K n ≡ suc (length rest) = ap length is in
      let (lower, y, upper, low, high, whole) = cut (size K n / 2 - 1) rest (omega arith) in
      let shifted : size K n / 2 ≡ suc (size K n / 2 - 1) = omega arith in
      split_first full lower upper y
        (ap (take (size K n / 2)) is ∙ ap (λ i. take i (x ∷ rest)) shifted ∙ ap (◌∷◌ x) low)
        (ap (drop (size K n / 2)) is ∙ ap (λ i. drop i (x ∷ rest)) shifted ∙ high) whole
