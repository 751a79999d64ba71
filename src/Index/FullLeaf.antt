-- ===== src/Index/FullLeaf.antt =====
-- Insertion into a leaf that is full, up to the call for its parent.
use miniob4cqu_db_exp.Common.{
  ℕ, ◌≤◌, ◌/◌, ◌-◌, ◌≡◌, ◌≢◌, refl, ◌∙◌, true, false, none, some, List, [], ◌∷◌, ◌++◌, take, drop,
  length, ltb, Bool-cases, inl, inr, ltb→lt, arith,
}
use miniob4cqu_db_exp.Common.Step.{Step, done, ◌>>=◌, ◌>>◌}
use miniob4cqu_db_exp.Index.Page.{
  IndexKeys, Key, Item, Node, node, rid, Rid, Index, LogEntry, set_parent_page, leaf_set_next_page,
  node_insert,
}
use miniob4cqu_db_exp.Index.Node.{
  load, size, with_items, with_parent, with_next, empty_node, insert_logged, set_parent_page_num,
  key_at,
}
use miniob4cqu_db_exp.Index.Leaf
use miniob4cqu_db_exp.Index.Wrote.{
  load-node, key_at-first, wrote, set_parent_page_num-wrote, set_next_page-wrote,
  insert_logged-wrote,
}
use miniob4cqu_db_exp.Index.Split.{TwoPages, TwoPages-first, TwoPages-second, split-TwoPages}
use miniob4cqu_db_exp.Index.Tree.{Sizes, split, insert_into_full_leaf, insert_entry_into_parent}
use miniob4cqu_db_exp.Index.PutAt.{
  put_at, put_at-lower, put_at-upper, put_at-cons, take-cons, drop-cons,
}

module _ (K : IndexKeys) (sizes : Sizes) where
  -- The steps of the code, with the callees shut.
  abbrev full_steps : ℕ → ℕ → ℕ → Key K → Rid → Step (Index K) (Unit {0})
  full_steps fuel p insert_position key r = do
    new ← split K sizes true p
    n ← load K p
    Leaf.set_next_page K new n.next_brother
    set_parent_page_num K new n.parent
    Leaf.set_next_page K p (some new)
    elim (ltb insert_position (size K n)) [
      | true ↦ Leaf.insert K p insert_position key r
      | false ↦ Leaf.insert K new (insert_position - size K n) key r
    ]
    middle ← key_at K new 0
    insert_entry_into_parent K sizes fuel p new middle

  full_lem :
      (fuel p insert_position : ℕ) (key : Key K) (r : Rid) (s : Index K)
      → insert_into_full_leaf K sizes fuel p insert_position key r s
        ≡ full_steps fuel p insert_position key r s
  unfolding insert_into_full_leaf
  full_lem fuel p insert_position key r s = refl

  pub insert_lem :
      (p index : ℕ) (key : Key K) (r : Rid) (s : Index K)
      → Leaf.insert K p index key r s ≡ insert_logged K p index ((key, rid r) ∷ []) s
  unfolding Leaf.insert
  insert_lem p index key r s = refl

  -- From `s` to `s'` the leaf in the page `p` was split, with the item at its index: the two leaves
  -- name one another, and have all items in their order.
  pub record Halves (p new index : ℕ) (n : Node K) (x : Item K) (free : List ℕ) (s s' : Index K)
      : Type 0 where
    pub lower : List (Item K)
    pub upper : List (Item K)
    pub middle : Item K
    pub rest : List (Item K)
    pub starts : upper ≡ middle ∷ rest
    pub head : Item K
    pub tail : List (Item K)
    pub some_lower : lower ≡ head ∷ tail
    pub whole : lower ++ upper ≡ put_at index x n.items
    pub pages :
        TwoPages K s s' p new
          (with_next K (some new) (with_items K lower n))
          (record {
            is_leaf = true;
            parent = n.parent;
            next_brother = n.next_brother;
            items = upper;
          })
          free

  module _ (fuel p new index : ℕ) (key : Key K) (r : Rid) (n : Node K) (s : Index K) (free : List ℕ)
      (at : s.pages p ≡ node n) (fresh : s.free ≡ new ∷ free) (apart : p ≢ new)
      (two : 2 ≤ size K n) where
    abbrev lower_half : List (Item K)
    lower_half = take (size K n / 2) n.items

    abbrev upper_half : List (Item K)
    upper_half = drop (size K n / 2) n.items

    abbrev low : Node K
    low = with_items K lower_half n

    abbrev high : Node K
    high = with_items K upper_half (with_parent K n.parent (empty_node K true))

    abbrev Done : Type 0
    Done =
        (s' : Index K) × (h : Halves p new index n (key, rid r) free s s') × (insert_into_full_leaf
            K sizes fuel p index key r s
          ≡ insert_entry_into_parent K sizes fuel p new h.middle.0 s')

    after_split :
        (s1 : Index K)
        → split K sizes true p s ≡ done new s1
        → TwoPages K s s1 p new low high free
        → Done
    after_split s1 run t = elim (Bool-cases (ltb index (length lower_half))) [
      | inl is_low ↦ in_low is_low (drop-cons (size K n / 2) n.items (omega arith))
      | inr is_high ↦
          in_high is_high (put_at-cons (index - length lower_half) (key, rid r) upper_half)
            (take-cons (size K n / 2) n.items (omega arith) (omega arith))
    ]
      where
        chained_high : Node K
        chained_high = with_next K n.next_brother high

        s2 : Index K
        s2 = wrote K s1 new chained_high (leaf_set_next_page new n.next_brother none)

        t2 : TwoPages K s s2 p new low chained_high free
        t2 =
            TwoPages-second K s s1 p new low high chained_high free
              (leaf_set_next_page new n.next_brother none) apart t

        s3 : Index K
        s3 = wrote K s2 new chained_high (set_parent_page new n.parent n.parent)

        t3 : TwoPages K s s3 p new low chained_high free
        t3 =
            TwoPages-second K s s2 p new low chained_high chained_high free
              (set_parent_page new n.parent n.parent) apart t2

        chained_low : Node K
        chained_low = with_next K (some new) low

        s4 : Index K
        s4 = wrote K s3 p chained_low (leaf_set_next_page p (some new) n.next_brother)

        t4 : TwoPages K s s4 p new chained_low chained_high free
        t4 =
            TwoPages-first K s s3 p new low chained_high chained_low free
              (leaf_set_next_page p (some new) n.next_brother) apart t3

        rest_steps : Step (Index K) (Unit {0})
        rest_steps = do
          elim (ltb index (length lower_half)) [
            | true ↦ Leaf.insert K p index key r
            | false ↦ Leaf.insert K new (index - length lower_half) key r
          ]
          middle ← key_at K new 0
          insert_entry_into_parent K sizes fuel p new middle

        runs : insert_into_full_leaf K sizes fuel p index key r s ≡ rest_steps s4
        runs =
            full_lem fuel p index key r s
            ∙ rw run (
                rw (load-node K p low s1 t.here) (
                  rw (set_next_page-wrote K s1 new high t.there n.next_brother) (
                    rw (set_parent_page_num-wrote K s2 new chained_high t2.there n.parent)
                      (rw (set_next_page-wrote K s3 p low t3.here (some new)) refl))))

        in_low :
            ltb index (length lower_half) ≡ true
            → (y : Item K) × (rest : List (Item K)) × (upper_half ≡ y ∷ rest)
            → Done
        in_low is_low (y, rest, starts) =
            let items = put_at index (key, rid r) lower_half in
            let (z, tail, begins) = put_at-cons index (key, rid r) lower_half in
            let entry : LogEntry K = node_insert p index ((key, rid r) ∷ []) in
            let s5 = wrote K s4 p (with_items K items chained_low) entry in
            let t5 =
              TwoPages-first K s s4 p new chained_low chained_high (with_items K items chained_low)
                free entry apart t4 in
            (
              s5,
              record {
                lower = items;
                upper = upper_half;
                middle = y;
                rest = rest;
                starts = starts;
                head = z;
                tail = tail;
                some_lower = begins;
                whole =
                    put_at-lower (size K n / 2) index (key, rid r) n.items
                      (ltb→lt index (length lower_half) is_low);
                pages = t5;
              },
              runs
                  ∙ rw is_low (
                      rw (insert_lem p index key r s4) (
                        rw
                          (insert_logged-wrote K s4 p chained_low t4.here index ((key, rid r) ∷ []))
                          (rw (key_at-first K new s5 chained_high y rest t5.there starts) refl))),
            )

        in_high :
            ltb index (length lower_half) ≡ false
            → (y : Item K) × (rest : List (Item K)) × (put_at
                  (index - length lower_half)
                  (key, rid r)
                  upper_half
                ≡ y ∷ rest)
            → (z : Item K) × (tail : List (Item K)) × (lower_half ≡ z ∷ tail)
            → Done
        in_high is_high (y, rest, starts) (z, tail, begins) =
            let i = index - length lower_half in
            let items = put_at i (key, rid r) upper_half in
            let entry : LogEntry K = node_insert new i ((key, rid r) ∷ []) in
            let s5 = wrote K s4 new (with_items K items chained_high) entry in
            let t5 =
              TwoPages-second K s s4 p new chained_low chained_high
                (with_items K items chained_high) free entry apart t4 in
            (
              s5,
              record {
                lower = lower_half;
                upper = items;
                middle = y;
                rest = rest;
                starts = starts;
                head = z;
                tail = tail;
                some_lower = begins;
                whole =
                    put_at-upper (size K n / 2) index (key, rid r) n.items
                      (ground (arith, is_high));
                pages = t5;
              },
              runs
                  ∙ rw is_high (
                      rw (insert_lem new i key r s4) (
                        rw
                          (insert_logged-wrote K s4 new chained_high t4.there i ((key, rid r) ∷ []))
                          (rw
                            (key_at-first K new s5 (with_items K items chained_high) y rest t5.there
                              starts)
                            refl))),
            )

    pub insert_into_full_leaf-Halves : Done
    insert_into_full_leaf-Halves =
        let (s1, run, t) = split-TwoPages K sizes s p new free n at fresh apart in
        after_split s1 run t
