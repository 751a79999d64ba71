-- ===== src/Index/Places.antt =====
-- The place at which a scan begins.
use miniob4cqu_db_exp.Common.{
  ℕ, zero, suc, ◌≤◌, ◌<◌, ◌≡◌, refl, sym, ap, ◌∙◌, subst, Bool, true, false, Option, none, some,
  List, [], ◌∷◌, ◌++◌, drop, length, length-append, ltb, arith,
}
use miniob4cqu_db_exp.Common.Step.{Step, Outcome, done, and_then, return, ◌>>◌}
use miniob4cqu_db_exp.Index.Page.{IndexKeys, Key, Item, Node, Page, node, Index}
use miniob4cqu_db_exp.Index.Node.{get_page}
use miniob4cqu_db_exp.Index.Leaf
use miniob4cqu_db_exp.Index.LeafOrder.{IsSorted, position, lookup-first_not_below}
use miniob4cqu_db_exp.Index.Leaves.{page_items, flatten}
use miniob4cqu_db_exp.Index.Chain.{IsLeaf, IsChain, rids_to, drop-past, load-node, get_page-node}
use miniob4cqu_db_exp.Index.NextEntry.{node_of}
use miniob4cqu_db_exp.Index.Scanner.{first_at}
use miniob4cqu_db_exp.Index.Opened.{opened_at, fetch_all-closed, opened_at-rids_to}

module _ (K : IndexKeys) where
  abbrev placed : ℕ → ℕ → Option ℕ → Bool → Index K → Outcome (Index K) (Option (ℕ × ℕ))
  placed p i next true s = done (some (p, i)) s
  placed p i none false s = done none s
  placed p i (some q) false s = (do get_page K q; return (some (q, 0))) s

  pub first_at-placed :
      (p : ℕ) (left : Key K) (n : Node K) (s : Index K)
      → s.pages p ≡ node n
      → IsSorted K n.items
      → first_at K p left s
        ≡ placed p
            (position K left n.items)
            n.next_brother
            (ltb (position K left n.items) (length n.items))
            s
  unfolding first_at
  first_at-placed p left n s at sorted =
      rw (load-node K p n s at, first_at)
        (by_test (Leaf.lookup K n left).0 (ltb (Leaf.lookup K n left).0 (length n.items))
          n.next_brother)
      ∙ ap (λ (r : ℕ × Bool). placed p r.0 n.next_brother (ltb r.0 (length n.items)) s)
          (lookup-first_not_below K n left sorted)
    where
      by_test :
          (i : ℕ) (b : Bool) (next : Option ℕ)
          → (elim b as (λ x. Step (Index K) (Option (ℕ × ℕ))) [
            | true ↦ return (some (p, i))
            | false ↦ elim next as (λ x. Step (Index K) (Option (ℕ × ℕ))) [
              | none ↦ return none
              | some q ↦ do get_page K q; return (some (q, 0))
            ]
          ])
              s
            ≡ placed p i next b s
      by_test i true next = refl
      by_test i false none = refl
      by_test i false (some q) = refl

  pub length-drop_le : (i : ℕ) (xs : List (Item K)) → length (drop i xs) ≤ length xs
  length-drop_le zero xs = omega arith
  length-drop_le (suc i) [] = omega arith
  length-drop_le (suc i) (x ∷ xs) = omega (arith, length-drop_le i xs)

  -- The place of a run, at which the rest of a scan gives the records.
  abbrev Places :
      Outcome (Index K) (Option (ℕ × ℕ)) → ℕ → Option (Key K) → List (Item K) → Index K → Type 0
  Places run rounds right items s =
      (place : Option (ℕ × ℕ)) × (run ≡ done place s)
      × (opened_at K rounds right place s ≡ done (rids_to K right items) s)

  next_of : Page K → Option ℕ
  next_of (node n) = n.next_brother
  next_of _ = none

  same_next : (n m : Node K) → node n ≡ node m → n.next_brother ≡ m.next_brother
  unfolding next_of
  same_next n m h = ap next_of h

  next_leaf-Places :
      (rounds p i : ℕ) (n : Node K) (after : List ℕ) (right : Option (Key K)) (s : Index K)
      → s.pages p ≡ node n
      → IsChain K s.pages p after
      → length (flatten K s.pages after) < rounds
      → Places (placed p i n.next_brother false s) rounds right (flatten K s.pages after) s
  next_leaf-Places rounds p i n [] right s at (m, leaf, last) enough = (
    none,
    ap (λ next. placed p i next false s) (same_next n m (sym at ∙ leaf.0) ∙ last),
    fetch_all-closed K rounds 0 none s enough,
  )
  next_leaf-Places rounds p i n (q ∷ rest) right s at (m, leaf, next, chain) enough =
      let (l, leaf_q) = node_of K s.pages q rest chain in
      (
        some (q, 0),
        ap (λ next. placed p i next false s) (same_next n m (sym at ∙ leaf.0) ∙ next)
            ∙ ap (λ r. and_then r (λ _. return (some (q, 0)))) (get_page-node K q l s leaf_q.0),
        opened_at-rids_to K rounds q 0 l rest right s leaf_q chain leaf_q.1 (here l leaf_q.0)
            ∙ ap (λ page. done (rids_to K right (page_items K page ++ flatten K s.pages rest)) s)
                (sym leaf_q.0),
      )
    where
      here : (l : Node K) → s.pages q ≡ node l → length (l.items ++ flatten K s.pages rest) < rounds
      here l at_q =
          subst (λ page. length (page_items K page ++ flatten K s.pages rest) < rounds) at_q enough

  pub leaf-Places :
      (rounds p i : ℕ) (n : Node K) (after : List ℕ) (right : Option (Key K)) (s : Index K)
      → IsLeaf K s.pages p n
      → IsChain K s.pages p after
      → length (drop i n.items ++ flatten K s.pages after) < rounds
      → Places
          (placed p i n.next_brother (ltb i (length n.items)) s)
          rounds
          right
          (drop i n.items ++ flatten K s.pages after)
          s
  leaf-Places rounds p i n after right s leaf chain enough = by_test (ltb i (length n.items)) refl
    where
      by_test :
          (b : Bool)
          → ltb i (length n.items) ≡ b
          → Places
              (placed p i n.next_brother b s)
              rounds
              right
              (drop i n.items ++ flatten K s.pages after)
              s
      by_test true test = (
        some (p, i),
        refl,
        opened_at-rids_to K rounds p i n after right s leaf chain (ground (arith, test)) enough,
      )
      by_test false test =
          subst
            (λ l.
              Places (placed p i n.next_brother false s) rounds right (l ++ flatten K s.pages after)
                s)
            (sym (drop-past K n.items i (ground (arith, test))))
            (next_leaf-Places rounds p i n after right s leaf.0 chain
              (ground (arith, enough, length-append (drop i n.items) (flatten K s.pages after))))
