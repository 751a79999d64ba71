-- ===== src/Index/Whole/Change.antt =====
-- What an insertion changes, in a part of a tree and in the whole.
use Prim.Native.Nat.{Ordering}
use miniob4cqu_db_exp.Common.{
  ℕ, ◌+◌, ◌≤◌, ◌≡◌, refl, sym, ap, ◌∙◌, List, [], ◌∷◌, ◌++◌, All, length, take, drop, arith,
}
use miniob4cqu_db_exp.Index.Page.{IndexKeys, Key, Item, Slot, rid, Rid, Index}
use miniob4cqu_db_exp.Index.LeafOrder.{comparing, at_order}
use miniob4cqu_db_exp.Index.LeafInsert.{inserted, inserted-lt, inserted-gt}
use miniob4cqu_db_exp.Index.Whole.{occurs}

module _ (K : IndexKeys) where
  module _ (key : Key K) (slot : Slot) where
    inserted-eq :
        (x : Item K) (items : List (Item K))
        → comparing K key x ≡ Ordering.eq
        → inserted K key slot (x ∷ items) ≡ (key, slot) ∷ x ∷ items
    unfolding at_order
    inserted-eq x items k =
        ap
          (λ o.
            take (at_order K key items o).0 (x ∷ items)
            ++ (key, slot) ∷ drop (at_order K key items o).0 (x ∷ items))
          k

    -- All items of the second list are above the key.
    pub inserted-append_left :
        (xs ys : List (Item K))
        → All (λ y. comparing K key y ≡ Ordering.gt) ys
        → inserted K key slot (xs ++ ys) ≡ inserted K key slot xs ++ ys
    inserted-append_left [] [] h = refl
    inserted-append_left [] (y ∷ ys) h = inserted-gt K key slot y ys h.0
    inserted-append_left (x ∷ xs) ys h =
        by_order (comparing K key x) refl (inserted-append_left xs ys h)
      where
        by_order :
            (o : Ordering)
            → comparing K key x ≡ o
            → inserted K key slot (xs ++ ys) ≡ inserted K key slot xs ++ ys
            → inserted K key slot (x ∷ (xs ++ ys)) ≡ inserted K key slot (x ∷ xs) ++ ys
        by_order Ordering.lt k later =
            inserted-lt K key slot x (xs ++ ys) k
            ∙ ap (◌∷◌ x) later
            ∙ ap (λ l. l ++ ys) (sym (inserted-lt K key slot x xs k))
        by_order Ordering.eq k later =
            inserted-eq x (xs ++ ys) k ∙ ap (λ l. l ++ ys) (sym (inserted-eq x xs k))
        by_order Ordering.gt k later =
            inserted-gt K key slot x (xs ++ ys) k
            ∙ ap (λ l. l ++ ys) (sym (inserted-gt K key slot x xs k))

    -- All items of the first list are below the key.
    pub inserted-append_right :
        (xs ys : List (Item K))
        → All (λ x. comparing K key x ≡ Ordering.lt) xs
        → inserted K key slot (xs ++ ys) ≡ xs ++ inserted K key slot ys
    inserted-append_right [] ys h = refl
    inserted-append_right (x ∷ xs) ys h =
        inserted-lt K key slot x (xs ++ ys) h.0 ∙ ap (◌∷◌ x) (inserted-append_right xs ys h.1)

  -- An insertion takes the pages `own` with their items to the pages `own'` with one item more, and
  -- at most `n` free pages. What is neither in the tree nor free is not changed.
  pub record Change (key : Key K) (r : Rid) (n : ℕ) (s s' : Index K) (own own' : ℕ → ℕ)
      (items items' : List (Item K)) : Type 0 where
    pub root : s'.root_page ≡ s.root_page
    pub counted : (a : ℕ) → own' a + occurs a s'.free ≡ own a + occurs a s.free
    pub other : (a : ℕ) → own a + occurs a s.free ≡ 0 → s'.pages a ≡ s.pages a
    pub is : items' ≡ inserted K key (rid r) items
    pub room : length s.free ≤ length s'.free + n

  module _ (key : Key K) (r : Rid) (n : ℕ) (s s' : Index K) (own first later own' : ℕ → ℕ)
      (items left right items' : List (Item K)) (owns : (a : ℕ) → own a ≡ first a + later a)
      (is : items ≡ left ++ right) where
    pub Change-left :
        All (λ y. comparing K key y ≡ Ordering.gt) right
        → Change key r n s s' first own' left items'
        → Change key r n s s' own (λ a. own' a + later a) items (items' ++ right)
    Change-left above c = record {
      root = c.root;
      counted = λ a. omega (arith, c.counted a, owns a);
      other = λ a h. c.other a (omega (arith, owns a));
      is =
          ap (λ l. l ++ right) c.is
          ∙ sym (inserted-append_left key (rid r) left right above)
          ∙ ap (inserted K key (rid r)) (sym is);
      room = c.room;
    }

    pub Change-right :
        All (λ x. comparing K key x ≡ Ordering.lt) left
        → Change key r n s s' later own' right items'
        → Change key r n s s' own (λ a. first a + own' a) items (left ++ items')
    Change-right below c = record {
      root = c.root;
      counted = λ a. omega (arith, c.counted a, owns a);
      other = λ a h. c.other a (omega (arith, owns a));
      is =
          ap (λ l. left ++ l) c.is
          ∙ sym (inserted-append_right key (rid r) left right below)
          ∙ ap (inserted K key (rid r)) (sym is);
      room = c.room;
    }
