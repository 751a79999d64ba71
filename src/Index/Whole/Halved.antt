-- ===== src/Index/Whole/Halved.antt =====
-- A node that is full is split, and one half takes the new page.
use miniob4cqu_db_exp.Common.{
  ℕ, suc, ◌+◌, ◌≤◌, ◌≡◌, ◌≢◌, refl, sym, ap, ◌∙◌, subst, false, Option, none, some, List, [], ◌∷◌,
  ◌++◌, All, length, ltb, arith,
}
use miniob4cqu_db_exp.Index.Page.{IndexKeys, Key, Item, Page, Slot, rid, child, Rid, Index}
use miniob4cqu_db_exp.Index.Node.{size}
use miniob4cqu_db_exp.Index.LeafOrder.{IsSorted}
use miniob4cqu_db_exp.Index.Shape.{Under}
use miniob4cqu_db_exp.Index.NodeHalves.{NodeHalves}
use miniob4cqu_db_exp.Index.SortedParts.{IsSorted-left, IsSorted-right, lower-Before}
use miniob4cqu_db_exp.Index.ParentSplit.{insert_entry_into_parent-NodeHalves}
use miniob4cqu_db_exp.Index.Tree.{Sizes, insert_entry_into_parent}
use miniob4cqu_db_exp.Index.Whole.{one, occurs, view, parent_in, roots, Over, Kids, Names, Tree}
use miniob4cqu_db_exp.Index.Whole.Frame.{one_self, ne-one, Kids-frame, Kids-roots, Names-frame}
use miniob4cqu_db_exp.Index.Whole.Cut.{Kids-cut}
use miniob4cqu_db_exp.Index.Whole.Change.{Change}
use miniob4cqu_db_exp.Index.Whole.Result.{Distinct, Grown, Pair}
use miniob4cqu_db_exp.Index.Whole.Parent.{Ready}

module _ (K : IndexKeys) where
  pub All-parts :
      (P : Item K → Type 0) (xs : List (Item K)) (y : Item K) (ys : List (Item K))
      → All P (xs ++ y ∷ ys)
      → All P xs × P y × All P ys
  All-parts P [] y ys h = (tt, h.0, h.1)
  All-parts P (x ∷ xs) y ys h =
      let (before, at, after) = All-parts P xs y ys h.1 in ((h.0, before), at, after)

  pub Over-key :
      (low : Option (Key K)) (x : Item K) (slot : Slot) → Over K low x → Over K low (x.0, slot)
  Over-key none x slot h = tt
  Over-key (some low) x slot h = h

  pub Under-key :
      (high : Option (Key K)) (x : Item K) (slot : Slot) → Under K high x → Under K high (x.0, slot)
  Under-key none x slot h = tt
  Under-key (some high) x slot h = h

  Names-moved :
      (pages pages' : ℕ → Page K) (q p : ℕ) (items : List (Item K))
      → ((a : ℕ) → 1 ≤ roots K items a → parent_in K (pages' a) ≡ some p)
      → All (Names K pages q) items
      → All (Names K pages' p) items
  Names-moved pages pages' q p [] f h = tt
  Names-moved pages pages' q p ((k, rid r) ∷ items) f (h, hs) = elim h [ ]
  Names-moved pages pages' q p ((k, child c) ∷ items) f (h, hs) = (
    f c (omega (arith, one_self c)),
    Names-moved pages pages' q p items (λ a k. f a (omega arith)) hs,
  )

module _ (K : IndexKeys) (sizes : Sizes) (key : Key K) (r : Rid) (height q c new np : ℕ) (m : Key K)
    (s s1 : Index K) (low high : Option (Key K)) (x : Item K) (rest : List (Item K))
    (own kids kids' : ℕ → ℕ) (items items' : List (Item K)) (free : List ℕ)
    (sorted : IsSorted K rest) (owns : (a : ℕ) → own a ≡ one q a + kids a)
    (distinct : Distinct K sizes own s)
    (change : Change K key r (suc height) s s1 kids kids' items items')
    (g : Grown K sizes height low high x rest q new m s1 kids' items')
    (h : Ready K height q new m s s1 low high x rest own kids')
    (from_child : parent_in K (s1.pages c) ≡ some q) (fresh : s1.free ≡ np ∷ free) where
  -- The page that is allocated is none of the tree's.
  once : (a : ℕ) → one q a + kids' a + (one np a + occurs a free) ≤ 1
  once a = omega (arith, h.counts a, distinct a, ap (occurs a) fresh)

  kids_np : kids' np ≡ 0
  kids_np = omega (arith, once np, one_self np)

  q_np : q ≢ np
  q_np same = absurd (omega (arith, once np, one_self np, one_self q, ap (λ b. one q b) same))

  not_q : (a : ℕ) → 1 ≤ kids' a → a ≢ q
  not_q a has same = absurd (omega (arith, has, ap kids' same, h.kids_q))

  not_np : (a : ℕ) → 1 ≤ kids' a → a ≢ np
  not_np a has same = absurd (omega (arith, has, ap kids' same, kids_np))

  new_np : new ≢ np
  new_np = not_np new (omega (arith, h.rooted new, one_self new))

  module _ (s2 : Index K) (t : NodeHalves K s1 s2 q np h.n x rest m new free) (first later : ℕ → ℕ)
      (left right : List (Item K)) (parts : (a : ℕ) → kids' a ≡ first a + later a)
      (is : items' ≡ left ++ right)
      (front : Kids K (Tree K s1.pages height) low (some t.middle.0) x t.lower first left)
      (back : Kids K (Tree K s1.pages height) (some t.middle.0) high t.middle t.upper later right)
      (names : All (Names K s1.pages q) (t.lower ++ t.middle ∷ t.upper)) where
    abbrev low_own : ℕ → ℕ
    low_own a = one q a + first a

    abbrev high_own : ℕ → ℕ
    high_own a = one np a + later a

    abbrev halves : ℕ → ℕ
    halves a = low_own a + high_own a

    halved-Change : Change K key r (suc (suc height)) s s2 own halves items items'
    halved-Change = record {
      root = t.root ∙ change.root;
      counted = λ a. omega (arith, h.counts a, parts a, ap (occurs a) t.left, ap (occurs a) fresh);
      other = λ a k.
          t.stays a (ne-one q a (omega (arith, owns a, k)))
            (ne-one np a (omega (arith, h.counts a, k, ap (occurs a) fresh)))
            (ne-one new a (omega (arith, owns a, k, change.counted a, h.rooted a)))
            (omega (arith, owns a, k, change.counted a, h.rooted a))
          ∙ change.other a (omega (arith, owns a, k));
      is = change.is;
      room = omega (arith, change.room, ap length t.left, ap length fresh);
    }

    front_roots : (a : ℕ) → roots K (x ∷ t.lower) a ≤ first a
    front_roots a = Kids-roots K s1.pages height low (some t.middle.0) x t.lower first left front a

    back_roots : (a : ℕ) → roots K (t.middle ∷ t.upper) a ≤ later a
    back_roots a =
        Kids-roots K s1.pages height (some t.middle.0) high t.middle t.upper later right back a

    kept_front : (a : ℕ) → 1 ≤ first a → parent_in K (s2.pages a) ≡ parent_in K (s1.pages a)
    kept_front a has =
        t.kept a (not_q a (omega (arith, parts a))) (not_np a (omega (arith, parts a)))
          (omega (arith, has, parts a, once a, back_roots a))

    front' : Kids K (Tree K s2.pages height) low (some t.middle.0) x t.lower first left
    front' =
        Kids-frame K s1.pages s2.pages height low (some t.middle.0) x t.lower first left
          (λ a. omega (arith, parts a, once a))
          (λ a k. t.views a (not_q a (omega (arith, parts a))) (not_np a (omega (arith, parts a))))
          (λ a k k'. kept_front a k) front

    back' : Kids K (Tree K s2.pages height) (some t.middle.0) high t.middle t.upper later right
    back' =
        Kids-frame K s1.pages s2.pages height (some t.middle.0) high t.middle t.upper later right
          (λ a. omega (arith, parts a, once a))
          (λ a k. t.views a (not_q a (omega (arith, parts a))) (not_np a (omega (arith, parts a))))
          (λ a k k'.
            t.kept a (not_q a (omega (arith, parts a))) (not_np a (omega (arith, parts a))) k')
          back

    in_order : IsSorted K (t.lower ++ t.middle ∷ t.upper)
    in_order = subst (IsSorted K) t.whole h.sorted

    overs : All (Over K low) t.lower × Over K low t.middle × All (Over K low) t.upper
    overs =
        All-parts K (Over K low) t.lower t.middle t.upper (subst (All (Over K low)) t.whole h.over)

    unders : All (Under K high) t.lower × Under K high t.middle × All (Under K high) t.upper
    unders =
        All-parts K (Under K high) t.lower t.middle t.upper
          (subst (All (Under K high)) t.whole h.under)

    named :
        All (Names K s1.pages q) t.lower
        × Names K s1.pages q t.middle
        × All (Names K s1.pages q) t.upper
    named = All-parts K (Names K s1.pages q) t.lower t.middle t.upper names

    low_Tree : Tree K s2.pages (suc height) low (some t.middle.0) q low_own left
    low_Tree = (
      x,
      t.lower,
      first,
      ap (view K) t.here ∙ ap (λ b. some (b, x ∷ t.lower)) h.inner,
      IsSorted-left K t.lower (t.middle ∷ t.upper) in_order,
      overs.0,
      lower-Before K t.middle t.lower t.upper in_order,
      Names-frame K s1.pages s2.pages q (x ∷ t.lower)
          (λ a k. kept_front a (omega (arith, front_roots a))) (g.names.0, named.0),
      λ a. refl,
      front',
    )

    high_Tree : Tree K s2.pages (suc height) (some t.middle.0) high np high_own right
    high_Tree = (
      t.middle,
      t.upper,
      later,
      ap (view K) t.there,
      (IsSorted-right K t.lower (t.middle ∷ t.upper) in_order).1,
      (IsSorted-right K t.lower (t.middle ∷ t.upper) in_order).0,
      unders.2,
      Names-moved K s1.pages s2.pages q np (t.middle ∷ t.upper)
          (λ a k.
            t.moved a (not_q a (omega (arith, parts a, back_roots a)))
              (not_np a (omega (arith, parts a, back_roots a))) k)
          (named.1, named.2),
      λ a. refl,
      back',
    )

    halved-Pair : Pair K sizes (suc height) low high q np t.middle.0 s s2 halves items'
    halved-Pair =
        let same = ap (parent_in K) (sym h.at_q ∙ h.q_same) in
        record {
          first = low_own;
          later = high_own;
          left = left;
          right = right;
          owns = λ a. refl;
          is = is;
          lower = low_Tree;
          upper = high_Tree;
          over = Over-key K low t.middle (child np) overs.1;
          under = Under-key K high t.middle (child np) unders.1;
          named = ap (parent_in K) t.here ∙ same;
          named_new = ap (parent_in K) t.there ∙ same;
        }

  pub Tree-halved :
      (f : ℕ)
      → ltb (size K h.n) sizes.internal_max_size ≡ false
      → 2 ≤ size K h.n
      → (s2 : Index K) × (own' : ℕ → ℕ) × (middle : Key K) × (insert_entry_into_parent K sizes
            (suc f)
            c
            new
            m
            s1
          ≡ insert_entry_into_parent K sizes f q np middle s2)
        × Change K key r (suc (suc height)) s s2 own own' items items'
        × Pair K sizes (suc height) low high q np middle s s2 own' items'
  Tree-halved f full two =
      let (s2, t, run) =
        insert_entry_into_parent-NodeHalves K sizes f c new q np m s1 h.n h.nn x rest free
          from_child h.named h.at_q h.is sorted h.at_new fresh h.new_q q_np new_np
          (omega (arith, h.rooted q, h.kids_q)) (omega (arith, h.rooted np, kids_np))
          (omega (arith, h.rooted new, one_self new, once new)) h.have g.absent full two in
      let (first, later, left, right, parts, is, front, back) =
        Kids-cut K (Tree K s1.pages height) low high x t.lower t.middle t.upper kids' items'
          (subst (λ l. Kids K (Tree K s1.pages height) low high x l kids' items') t.whole g.kids) in
      let names = subst (All (Names K s1.pages q)) t.whole g.names.1 in
      (
        s2,
        halves s2 t first later left right parts is front back names,
        t.middle.0,
        run,
        halved-Change s2 t first later left right parts is front back names,
        halved-Pair s2 t first later left right parts is front back names,
      )
