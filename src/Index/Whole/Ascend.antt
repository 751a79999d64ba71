-- ===== src/Index/Whole/Ascend.antt =====
-- An insertion into the children of a node, as one into the tree.
use miniob4cqu_db_exp.Common.{
  ℕ, suc, ◌+◌, ◌-◌, ◌≤◌, ◌<◌, ◌≡◌, refl, ap, ◌∙◌, false, Option, none, some, List, [], ◌∷◌, All,
  length, ltb, Bool-cases, inl, inr, arith,
}
use miniob4cqu_db_exp.Common.Step.{Outcome}
use miniob4cqu_db_exp.Index.Page.{IndexKeys, Key, Item, Rid, Index}
use miniob4cqu_db_exp.Index.Node.{size}
use miniob4cqu_db_exp.Index.LeafOrder.{IsSorted, slot_of}
use miniob4cqu_db_exp.Index.Shape.{Under}
use miniob4cqu_db_exp.Index.Tree.{Sizes, insert_entry_into_parent}
use miniob4cqu_db_exp.Index.Whole.{one, view, parent_in, Over}
use miniob4cqu_db_exp.Index.Whole.Frame.{one_self}
use miniob4cqu_db_exp.Index.Whole.Change.{Change}
use miniob4cqu_db_exp.Index.Whole.Result.{Distinct, Grown, TreeResult, KidsResult}
use miniob4cqu_db_exp.Index.Whole.Parent.{Ready, ready}
use miniob4cqu_db_exp.Index.Whole.Took.{Tree-took}
use miniob4cqu_db_exp.Index.Whole.Halved.{Tree-halved}

pub some_free {ℓ} :
    {A : Type ℓ} (xs : List A) → 1 ≤ length xs → (x : A) × (rest : List A) × (xs ≡ x ∷ rest)
some_free [] h = absurd (omega arith)
some_free (x ∷ xs) h = (x, xs, refl)

module _ (K : IndexKeys) (sizes : Sizes) (key : Key K) (r : Rid) (fuel height q c : ℕ) (s : Index K)
    (low high : Option (Key K)) (x : Item K) (rest : List (Item K)) (own kids : ℕ → ℕ)
    (items : List (Item K)) (o : Outcome (Index K) (Unit {0}))
    (at : view K (s.pages q) ≡ some (false, x ∷ rest)) (sorted : IsSorted K rest)
    (over : All (Over K low) rest) (under : All (Under K high) rest)
    (owns : (a : ℕ) → own a ≡ one q a + kids a) (distinct : Distinct K sizes own s)
    (two : 2 ≤ sizes.internal_max_size) (fuelled : height < fuel)
    (enough : suc (suc height) ≤ length s.free) where
  abbrev Goal : Type 0
  Goal = TreeResult K sizes key r fuel (suc height) low high q s own items o

  step_down : fuel - height ≡ suc (fuel - suc height)
  step_down = omega arith

  module _ (s' : Index K) (kids' : ℕ → ℕ) (items' : List (Item K))
      (change : Change K key r (suc height) s s' kids kids' items items') where
    q_same : s'.pages q ≡ s.pages q
    q_same = change.other q (omega (arith, owns q, one_self q, distinct q))

    grown-Change : Change K key r (suc (suc height)) s s' own (λ a. one q a + kids' a) items items'
    grown-Change = record {
      root = change.root;
      counted = λ a. omega (arith, change.counted a, owns a);
      other = λ a h. change.other a (omega (arith, owns a, h));
      is = change.is;
      room = omega (arith, change.room);
    }

  module _ (s1 : Index K) (kids' : ℕ → ℕ) (items' : List (Item K)) (new : ℕ) (m : Key K)
      (change : Change K key r (suc height) s s1 kids kids' items items')
      (g : Grown K sizes height low high x rest q new m s1 kids' items') where
    prepared : Ready K height q new m s s1 low high x rest own kids'
    prepared =
        ready K sizes key r height q new m s s1 low high x rest own kids kids' items items' at
          sorted over under owns distinct change g

    under_node :
        o ≡ insert_entry_into_parent K sizes (fuel - height) c new m s1
        → parent_in K (s1.pages c) ≡ some q
        → slot_of K key items ≡ none
        → Goal
    under_node runs from_child absent =
        elim (Bool-cases (ltb (size K prepared.n) sizes.internal_max_size)) [
          | inl room ↦
              let (s2, run, change', tree, name) =
                Tree-took K sizes key r height q c new m s s1 low high x rest own kids kids' items
                  items' sorted owns distinct change g prepared from_child room
                  (fuel - suc height) in
              inr (
                absent,
                inl (
                  s2,
                  λ a. one q a + kids' a,
                  items',
                  change',
                  runs ∙ ap (λ f. insert_entry_into_parent K sizes f c new m s1) step_down ∙ run,
                  (tree, name),
                ),
              )
          | inr full ↦
              let (np, free, fresh) = some_free s1.free (omega (arith, change.room)) in
              let (s2, own', middle, run, change', pair) =
                Tree-halved K sizes key r height q c new np m s s1 low high x rest own kids kids'
                  items items' free sorted owns distinct change g prepared from_child fresh
                  (fuel - suc height) full (ground (arith, full)) in
              inr (
                absent,
                inr (
                  s2,
                  own',
                  items',
                  np,
                  middle,
                  change',
                  (
                    runs ∙ ap (λ f. insert_entry_into_parent K sizes f c new m s1) step_down ∙ run,
                    pair,
                  ),
                ),
              )
        ]

  pub Tree-result : KidsResult K sizes key r fuel height low high x rest q c s kids items o → Goal
  Tree-result (inl dup) = inl dup
  Tree-result (inr (absent, inl (s', kids', items', change, runs, (ks, names)))) = inr (
    absent,
    inl (
      s',
      λ a. one q a + kids' a,
      items',
      grown-Change s' kids' items' change,
      runs,
      (
        (
          x,
          rest,
          kids',
          ap (view K) (q_same s' kids' items' change) ∙ at,
          sorted,
          over,
          under,
          names,
          λ a. refl,
          ks,
        ),
        ap (parent_in K) (q_same s' kids' items' change),
      ),
    ),
  )
  Tree-result (inr (absent, inr (s1, kids', items', new, m, change, (runs, from_child, g)))) =
      under_node s1 kids' items' new m change g runs from_child absent
