-- ===== src/Index/NextEntry.antt =====
-- What the next step of a scanner gives.
use miniob4cqu_db_exp.Common.{
  ℕ, zero, suc, ◌+◌, ◌≤◌, ◌<◌, ◌≡◌, refl, sym, ap, ◌∙◌, subst, Bool, true, false, Option, none,
  some, List, [], ◌∷◌, ◌++◌, length, length-append, drop, get_elem?, ltb, arith,
}
use miniob4cqu_db_exp.Common.Step.{Step, Outcome, done, and_then, return, ◌>>=◌, ◌>>◌}
use miniob4cqu_db_exp.Index.Page.{IndexKeys, Key, Item, Node, Page, node, Rid, Index}
use miniob4cqu_db_exp.Index.Node.{get_page}
use miniob4cqu_db_exp.Index.Leaves.{page_items, flatten}
use miniob4cqu_db_exp.Index.Scanner.{Scanner, touch_end, fetch_item, next_from}
use miniob4cqu_db_exp.Index.Chain.{
  IsRid, IsLeaf, IsChain, past, first_rid, drop-get, drop-past, get-in, load-node, get_page-node,
  touch_end-past, fetch_item-rid,
}

module _ (K : IndexKeys) where
  -- The scanner stands before the items that are left, with an item behind it.
  pub record Position (s : Index K) (right : Option (Key K)) (scanner : Scanner K)
      (items : List (Item K)) : Type 0 where
    pub page : ℕ
    pub rest : List ℕ
    pub node_at : Node K
    pub current : scanner.current ≡ some page
    pub emitted : scanner.first_emitted ≡ true
    pub right_end : scanner.right_key ≡ right
    pub here : s.pages page ≡ node node_at
    pub chain : IsChain K s.pages page rest
    pub ahead : items ≡ drop (scanner.index + 1) node_at.items ++ flatten K s.pages rest

  abbrev pub Gives :
      Outcome (Index K) (Option Rid × Scanner K) → Option (Key K) → Index K → List (Item K) → Type 0
  Gives run right s items =
      (scanner : Scanner K) × (run ≡ done (first_rid K right items, scanner) s)
      × ((x : Item K) (later : List (Item K))
          → items ≡ x ∷ later
          → past K right x ≡ false
          → Position s right scanner later)

  head_eq : (x y : Item K) (xs ys : List (Item K)) → x ∷ xs ≡ y ∷ ys → x ≡ y
  head_eq x y xs ys h = cc h

  tail_eq : (x y : Item K) (xs ys : List (Item K)) → x ∷ xs ≡ y ∷ ys → xs ≡ ys
  tail_eq x y xs ys h = cc h

  -- `next_from` behind the test of the index.
  abbrev tested :
      ℕ
      → ℕ
      → ℕ
      → Option ℕ
      → Scanner K
      → Bool
      → Outcome (Index K) (Option Rid × Scanner K)
      → Index K
      → Outcome (Index K) (Option Rid × Scanner K)
  tested fuel p i next scanner true inside s = inside
  tested fuel p i none scanner false inside s =
      done (none, record scanner { current = some p; index = i }) s
  tested fuel p i (some next) scanner false inside s =
      (do get_page K next; next_from K fuel next 0 scanner) s

  abbrev inside_leaf : ℕ → ℕ → Scanner K → Step (Index K) (Option Rid × Scanner K)
  inside_leaf p i scanner = do
    over ← touch_end K scanner.right_key p i
    elim over [
      | true ↦ return (none, record scanner { current = some p; index = i })
      | false ↦ do
        r ← fetch_item K p i
        return (some r, record scanner { current = some p; index = i })
    ]

  next_from-tested :
      (fuel p i : ℕ) (n : Node K) (scanner : Scanner K) (s : Index K)
      → s.pages p ≡ node n
      → next_from K (suc fuel) p i scanner s
        ≡ tested fuel p i n.next_brother scanner
            (ltb i (length n.items))
            (inside_leaf p i scanner s)
            s
  unfolding next_from
  next_from-tested fuel p i n scanner s at =
      rw (load-node K p n s at, next_from) (by_test (ltb i (length n.items)) n.next_brother)
    where
      by_test :
          (b : Bool) (next : Option ℕ)
          → (elim b as (λ x. Step (Index K) (Option Rid × Scanner K)) [
            | true ↦ inside_leaf p i scanner
            | false ↦ elim next as (λ x. Step (Index K) (Option Rid × Scanner K)) [
              | none ↦ return (none, record scanner { current = some p; index = i })
              | some q ↦ do get_page K q; next_from K fuel q 0 scanner
            ]
          ])
              s
            ≡ tested fuel p i next scanner b (inside_leaf p i scanner s) s
      by_test true next = refl
      by_test false none = refl
      by_test false (some q) = refl

  in_leaf :
      (p i : ℕ) (n : Node K) (x : Item K) (rest : List ℕ) (scanner : Scanner K) (s : Index K)
      → s.pages p ≡ node n
      → IsChain K s.pages p rest
      → get_elem? n.items i ≡ some x
      → IsRid K x
      → scanner.first_emitted ≡ true
      → Gives
          (inside_leaf p i scanner s)
          scanner.right_key
          s
          (x ∷ (drop (i + 1) n.items ++ flatten K s.pages rest))
  in_leaf p i n x rest scanner s at chain here is_rid emitted =
      by_past (past K scanner.right_key x) refl
    where
      by_past :
          (b : Bool)
          → past K scanner.right_key x ≡ b
          → Gives
              (inside_leaf p i scanner s)
              scanner.right_key
              s
              (x ∷ (drop (i + 1) n.items ++ flatten K s.pages rest))
      by_past true over = (
        record scanner { current = some p; index = i },
        rw (touch_end-past K scanner.right_key p i n x s at here) (rw over refl),
        λ y later same more. absurd (
            cc (
              sym over
              ∙ ap (past K scanner.right_key)
                  (head_eq x y (drop (i + 1) n.items ++ flatten K s.pages rest) later same)
              ∙ more)),
      )
      by_past false over = (
        record scanner { current = some p; index = i },
        rw (touch_end-past K scanner.right_key p i n x s at here)
            (rw over (rw (fetch_item-rid K p i n x s at here is_rid) refl)),
        λ y later same more. record {
          page = p;
          rest = rest;
          node_at = n;
          current = refl;
          emitted = emitted;
          right_end = refl;
          here = at;
          chain = chain;
          ahead = sym (tail_eq x y (drop (i + 1) n.items ++ flatten K s.pages rest) later same);
        },
      )

  pub node_of :
      (pages : ℕ → Page K) (p : ℕ) (rest : List ℕ)
      → IsChain K pages p rest
      → (n : Node K) × IsLeaf K pages p n
  node_of pages p [] (n, leaf, last) = (n, leaf)
  node_of pages p (q ∷ rest) (n, leaf, next, chain) = (n, leaf)

  from_leaf :
      (fuel p i : ℕ) (n : Node K) (rest : List ℕ) (scanner : Scanner K) (s : Index K)
      → IsLeaf K s.pages p n
      → IsChain K s.pages p rest
      → scanner.first_emitted ≡ true
      → Gives
          (tested fuel p i n.next_brother scanner false (inside_leaf p i scanner s) s)
          scanner.right_key
          s
          (flatten K s.pages rest)
      → Gives
          (next_from K (suc fuel) p i scanner s)
          scanner.right_key
          s
          (drop i n.items ++ flatten K s.pages rest)
  from_leaf fuel p i n rest scanner s (at, filled, is_rids) chain emitted outside =
      subst (λ r. Gives r scanner.right_key s (drop i n.items ++ flatten K s.pages rest))
        (sym (next_from-tested fuel p i n scanner s at)) (by_test (ltb i (length n.items)) refl)
    where
      by_test :
          (b : Bool)
          → ltb i (length n.items) ≡ b
          → Gives
              (tested fuel p i n.next_brother scanner b (inside_leaf p i scanner s) s)
              scanner.right_key
              s
              (drop i n.items ++ flatten K s.pages rest)
      by_test true test =
          let (x, here, is_rid) = get-in K n.items i (ground (arith, test)) is_rids in
          subst
            (λ l.
              Gives (inside_leaf p i scanner s) scanner.right_key s (l ++ flatten K s.pages rest))
            (sym (drop-get K n.items i x here))
            (in_leaf p i n x rest scanner s at chain here is_rid emitted)
      by_test false test =
          subst
            (λ l.
              Gives (tested fuel p i n.next_brother scanner false (inside_leaf p i scanner s) s)
                scanner.right_key s (l ++ flatten K s.pages rest))
            (sym (drop-past K n.items i (ground (arith, test)))) outside

  pub next_from-Gives :
      (fuel p i : ℕ) (rest : List ℕ) (scanner : Scanner K) (s : Index K)
      → IsChain K s.pages p rest
      → length rest < fuel
      → scanner.first_emitted ≡ true
      → Gives
          (next_from K fuel p i scanner s)
          scanner.right_key
          s
          (drop i (page_items K (s.pages p)) ++ flatten K s.pages rest)
  next_from-Gives zero p i rest scanner s chain enough emitted = absurd (omega arith)
  next_from-Gives (suc fuel) p i [] scanner s (n, leaf, last) enough emitted =
      subst
        (λ page.
          Gives (next_from K (suc fuel) p i scanner s) scanner.right_key s
            (drop i (page_items K page) ++ []))
        (sym leaf.0)
        (from_leaf fuel p i n [] scanner s leaf (n, leaf, last) emitted
          (
            record scanner { current = some p; index = i },
            ap (λ next. tested fuel p i next scanner false (inside_leaf p i scanner s) s) last,
            λ x later same more. absurd (cc same),
          ))
  next_from-Gives (suc fuel) p i (q ∷ rest) scanner s (n, leaf, next, chain) enough emitted =
      subst
        (λ page.
          Gives (next_from K (suc fuel) p i scanner s) scanner.right_key s
            (drop i (page_items K page) ++ flatten K s.pages (q ∷ rest)))
        (sym leaf.0)
        (from_leaf fuel p i n (q ∷ rest) scanner s leaf (n, leaf, next, chain) emitted
          (subst (λ r. Gives r scanner.right_key s (flatten K s.pages (q ∷ rest))) (sym to_next)
            (next_from-Gives fuel q 0 rest scanner s chain (omega arith) emitted)))
    where
      to_next :
          tested fuel p i n.next_brother scanner false (inside_leaf p i scanner s) s
          ≡ next_from K fuel q 0 scanner s
      to_next =
          let (m, leaf_q) = node_of s.pages q rest chain in
          ap (λ next. tested fuel p i next scanner false (inside_leaf p i scanner s) s) next
          ∙ ap (λ o. and_then o (λ _. next_from K fuel q 0 scanner))
              (get_page-node K q m s leaf_q.0)

  -- Each leaf that is left has an item at least.
  pub chain-length :
      (pages : ℕ → Page K) (p : ℕ) (rest : List ℕ)
      → IsChain K pages p rest
      → length rest ≤ length (flatten K pages rest)
  chain-length pages p [] chain = omega arith
  chain-length pages p (q ∷ rest) (n, leaf, next, chain) =
      let (m, leaf_q) = node_of pages q rest chain in
      rw (length-append (page_items K (pages q)) (flatten K pages rest))
        (rw leaf_q.0 (ground (arith, leaf_q.1, chain-length pages q rest chain)))
