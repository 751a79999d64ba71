-- ===== src/Index/Whole/Took.antt =====
-- A node that has room takes the new page.
use miniob4cqu_db_exp.Common.{
  ℕ, suc, ◌+◌, ◌≤◌, ◌≡◌, ◌≢◌, refl, sym, ap, ◌∙◌, true, Option, some, List, ◌∷◌, length, ltb, arith,
}
use miniob4cqu_db_exp.Common.Step.{done}
use miniob4cqu_db_exp.Index.Page.{IndexKeys, Key, Item, child, Rid, Index}
use miniob4cqu_db_exp.Index.Node.{size}
use miniob4cqu_db_exp.Index.LeafOrder.{IsSorted}
use miniob4cqu_db_exp.Index.LeafInsert.{inserted}
use miniob4cqu_db_exp.Index.NodeHalves.{roots-inserted}
use miniob4cqu_db_exp.Index.ParentStep.{ParentTook, insert_entry_into_parent-room}
use miniob4cqu_db_exp.Index.Tree.{Sizes, insert_entry_into_parent}
use miniob4cqu_db_exp.Index.Whole.{one, occurs, view, parent_in, Tree}
use miniob4cqu_db_exp.Index.Whole.Frame.{ne-one, Kids-frame, Names-frame}
use miniob4cqu_db_exp.Index.Whole.Change.{Change}
use miniob4cqu_db_exp.Index.Whole.Result.{Distinct, Grown}
use miniob4cqu_db_exp.Index.Whole.Parent.{Ready}

module _ (K : IndexKeys) (sizes : Sizes) (key : Key K) (r : Rid) (height q c new : ℕ) (m : Key K)
    (s s1 : Index K) (low high : Option (Key K)) (x : Item K) (rest : List (Item K))
    (own kids kids' : ℕ → ℕ) (items items' : List (Item K)) (sorted : IsSorted K rest)
    (owns : (a : ℕ) → own a ≡ one q a + kids a) (distinct : Distinct K sizes own s)
    (change : Change K key r (suc height) s s1 kids kids' items items')
    (g : Grown K sizes height low high x rest q new m s1 kids' items')
    (h : Ready K height q new m s s1 low high x rest own kids')
    (from_child : parent_in K (s1.pages c) ≡ some q)
    (room : ltb (size K h.n) sizes.internal_max_size ≡ true) where
  abbrev taken : ℕ → ℕ
  taken a = one q a + kids' a

  -- A page of the children is not that of the node.
  not_q : (a : ℕ) → 1 ≤ kids' a → a ≢ q
  not_q a has same = absurd (omega (arith, has, ap kids' same, h.kids_q))

  module _ (s2 : Index K) (t : ParentTook K s1 s2 q h.n x rest m new) where
    took-Change : Change K key r (suc (suc height)) s s2 own taken items items'
    took-Change = record {
      root = t.root ∙ change.root;
      counted = λ a. omega (arith, h.counts a, ap (occurs a) t.left);
      other = λ a k.
          t.stays a (ne-one q a (omega (arith, owns a, k)))
            (ne-one new a (omega (arith, owns a, k, change.counted a, h.rooted a)))
          ∙ change.other a (omega (arith, owns a, k));
      is = change.is;
      room = omega (arith, change.room, ap length t.left);
    }

    took-Tree : Tree K s2.pages (suc height) low high q taken items'
    took-Tree = (
      x,
      inserted K m (child new) rest,
      kids',
      ap (view K) t.here ∙ ap (λ b. some (b, x ∷ inserted K m (child new) rest)) h.inner,
      h.sorted,
      h.over,
      h.under,
      Names-frame K s1.pages s2.pages q (x ∷ inserted K m (child new) rest)
          (λ a k. t.kept a (not_q a (omega (arith, k, roots-inserted K m new rest a, h.rooted a))))
          g.names,
      λ a. refl,
      Kids-frame K s1.pages s2.pages height low high x (inserted K m (child new) rest) kids' items'
          (λ a. omega (arith, h.counts a, distinct a)) (λ a k. t.views a (not_q a k))
          (λ a k k'. t.kept a (not_q a k)) g.kids,
    )

    took-named : parent_in K (s2.pages q) ≡ parent_in K (s.pages q)
    took-named = ap (parent_in K) t.here ∙ ap (parent_in K) (sym h.at_q ∙ h.q_same)

  pub Tree-took :
      (f : ℕ)
      → (s2 : Index K) × (insert_entry_into_parent K sizes (suc f) c new m s1 ≡ done tt s2)
        × Change K key r (suc (suc height)) s s2 own taken items items'
        × Tree K s2.pages (suc height) low high q taken items'
        × (parent_in K (s2.pages q) ≡ parent_in K (s.pages q))
  Tree-took f =
      let (s2, run, t) =
        insert_entry_into_parent-room K sizes f c new q m s1 h.n h.nn x rest from_child h.named
          h.at_q h.is sorted h.at_new h.new_q room in
      (s2, run, took-Change s2 t, took-Tree s2 t, took-named s2 t)
