-- ===== src/Index/Whole/AtLeaf.antt =====
-- An insertion into a leaf, as one into a tree of height zero.
use miniob4cqu_db_exp.Common.{
  ℕ, zero, ◌≤◌, ◌≡◌, sym, ap, ◌∙◌, subst, true, false, Option, List, All, length, ltb, Bool-cases,
  inl, inr, Rc,
}
use miniob4cqu_db_exp.Common.Step.{Step, fail}
use miniob4cqu_db_exp.Index.Page.{IndexKeys, Key, Item, Node, node, rid, Rid, Index}
use miniob4cqu_db_exp.Index.Node.{size}
use miniob4cqu_db_exp.Index.LeafOrder.{IsSorted, found-slot_of, position}
use miniob4cqu_db_exp.Index.LeafInsert.{inserted}
use miniob4cqu_db_exp.Index.Shape.{AtLeast, Under}
use miniob4cqu_db_exp.Index.Tree.{Sizes, insert_entry_into_leaf_node}
use miniob4cqu_db_exp.Index.Whole.{Tree}
use miniob4cqu_db_exp.Index.Whole.Forget.{view-node}
use miniob4cqu_db_exp.Index.Whole.Result.{Distinct, TreeResult}
use miniob4cqu_db_exp.Index.Whole.LeafSteps.{by_room, to_lookup}
use miniob4cqu_db_exp.Index.Whole.LeafCases.{filled, room-result, full-result}

module _ (K : IndexKeys) (sizes : Sizes) (fuel p : ℕ) (key : Key K) (r : Rid) where
  pub leaf-result :
      (s : Index K) (low high : Option (Key K)) (own : ℕ → ℕ) (items : List (Item K))
      → Tree K s.pages zero low high p own items
      → AtLeast K low (key, rid r)
      → Under K high (key, rid r)
      → Distinct K sizes own s
      → 2 ≤ sizes.leaf_max_size
      → 1 ≤ length s.free
      → TreeResult K sizes key r fuel zero low high p s own items
          (insert_entry_into_leaf_node K sizes fuel p key r s)
  leaf-result s low high own items (at, sorted, above, below, owns) key_above key_below distinct two
        some_page =
      let (n, here, leaf, is) = view-node K (s.pages p) true items at in
      subst
        (λ l.
          TreeResult K sizes key r fuel zero low high p s own l
            (insert_entry_into_leaf_node K sizes fuel p key r s))
        is
        (at_node n here leaf (subst (IsSorted K) (sym is) sorted)
          (subst (All (AtLeast K low)) (sym is) above) (subst (All (Under K high)) (sym is) below))
    where
      at_node :
          (n : Node K)
          → s.pages p ≡ node n
          → n.is_leaf ≡ true
          → IsSorted K n.items
          → All (AtLeast K low) n.items
          → All (Under K high) n.items
          → TreeResult K sizes key r fuel zero low high p s own n.items
              (insert_entry_into_leaf_node K sizes fuel p key r s)
      at_node n here leaf sorted' above' below' = elim (found-slot_of K key n.items sorted') [
        | inl (is_there, slot, has) ↦ inl (
          slot,
          has,
          to_lookup K sizes fuel p key r s n here sorted'
              ∙ ap
                  (λ b.
                    (elim b as (λ x. Step (Index K) (Unit {0})) [
                      | true ↦ fail Rc.record_duplicate_key
                      | false ↦
                          by_room K sizes fuel p key r (position K key n.items)
                            (ltb (size K n) sizes.leaf_max_size)
                    ])
                      s)
                  is_there,
        )
        | inr (absent, lacks) ↦ inr (
          lacks,
          elim (Bool-cases (ltb (size K n) sizes.leaf_max_size)) [
            | inl room ↦
                let (runs, change, tree, name) =
                  room-result K sizes fuel p key r s low high own n here leaf sorted' above' below'
                    owns distinct key_above key_below absent room in
                inl (
                  filled K sizes fuel p key r s low high own n here leaf sorted' above' below' owns
                      distinct key_above key_below absent,
                  own,
                  inserted K key (rid r) n.items,
                  change,
                  runs,
                  (tree, name),
                )
            | inr full ↦ inr (
                full-result K sizes fuel p key r s low high own n here leaf sorted' above' below'
                  owns distinct key_above key_below absent full two some_page)
          ],
        )
      ]
