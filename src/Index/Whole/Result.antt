-- ===== src/Index/Whole/Result.antt =====
-- How an insertion into a part of a tree ends: the key is there already, the part has taken the
-- record, or it was split and the parent is to take the new page.
use miniob4cqu_db_exp.Common.{
  ℕ, suc, ◌+◌, ◌-◌, ◌≤◌, ◌≡◌, false, Rc, Option, none, some, List, ◌∷◌, ◌++◌, ◌⊎◌, All,
}
use miniob4cqu_db_exp.Common.Step.{Outcome, done, failed}
use miniob4cqu_db_exp.Index.Page.{IndexKeys, Key, Item, Slot, child, Rid, Index}
use miniob4cqu_db_exp.Index.LeafOrder.{slot_of, found}
use miniob4cqu_db_exp.Index.LeafInsert.{inserted}
use miniob4cqu_db_exp.Index.Shape.{Under}
use miniob4cqu_db_exp.Index.Tree.{Sizes, insert_entry_into_parent}
use miniob4cqu_db_exp.Index.Whole.{parent_in, Over, Kids, Names, Tree, occurs}
use miniob4cqu_db_exp.Index.Whole.Change.{Change}

module _ (K : IndexKeys) (sizes : Sizes) where
  -- No page is twice among those of the part and the free ones.
  abbrev pub Distinct : (ℕ → ℕ) → Index K → Type 0
  Distinct own s = (a : ℕ) → own a + occurs a s.free ≤ 1

  -- The tree in `p` was cut at the key `m`; the upper part is in `new`, under the same parent.
  pub record Pair (height : ℕ) (low high : Option (Key K)) (p new : ℕ) (m : Key K) (s s' : Index K)
      (own : ℕ → ℕ) (items : List (Item K)) : Type 0 where
    pub first : ℕ → ℕ
    pub later : ℕ → ℕ
    pub left : List (Item K)
    pub right : List (Item K)
    pub owns : (a : ℕ) → own a ≡ first a + later a
    pub is : items ≡ left ++ right
    pub lower : Tree K s'.pages height low (some m) p first left
    pub upper : Tree K s'.pages height (some m) high new later right
    pub over : Over K low (m, child new)
    pub under : Under K high (m, child new)
    pub named : parent_in K (s'.pages p) ≡ parent_in K (s.pages p)
    pub named_new : parent_in K (s'.pages new) ≡ parent_in K (s.pages p)

  -- The children, all under `q`, with the new page among them, which the node in `q` has not yet.
  pub record Grown (height : ℕ) (low high : Option (Key K)) (x : Item K) (rest : List (Item K))
      (q new : ℕ) (m : Key K) (s' : Index K) (own : ℕ → ℕ) (items : List (Item K)) : Type 0 where
    pub kids : Kids K (Tree K s'.pages height) low high x (inserted K m (child new) rest) own items
    pub absent : found K m rest ≡ false
    pub over : Over K low (m, child new)
    pub under : Under K high (m, child new)
    pub names : All (Names K s'.pages q) (x ∷ inserted K m (child new) rest)

  module _ (key : Key K) (r : Rid) (n : ℕ) (s : Index K) (own : ℕ → ℕ) (items : List (Item K))
      (o : Outcome (Index K) (Unit {0})) where
    abbrev pub Result :
        (Index K → (ℕ → ℕ) → List (Item K) → Type 0)
        → (Index K → ℕ → Key K → (ℕ → ℕ) → List (Item K) → Type 0)
        → Type 0
    Result Taken Cut =
        ((slot : Slot) × (slot_of K key items ≡ some slot) × (o ≡ failed Rc.record_duplicate_key s))
        ⊎ ((slot_of K key items ≡ none)
            × (((s' : Index K) × (own' : ℕ → ℕ) × (items' : List (Item K)) × Change K key r n s s'
                    own own' items items'
                  × (o ≡ done tt s')
                  × Taken s' own' items')
                ⊎ ((s' : Index K) × (own' : ℕ → ℕ) × (items' : List (Item K)) × (new : ℕ) × (m : Key
                      K)
                    × Change K key r n s s' own own' items items'
                    × Cut s' new m own' items')))

  module _ (key : Key K) (r : Rid) (fuel height : ℕ) (low high : Option (Key K)) where
    abbrev pub TreeResult :
        ℕ → Index K → (ℕ → ℕ) → List (Item K) → Outcome (Index K) (Unit {0}) → Type 0
    TreeResult p s own items o =
        Result key r (suc height) s own items o
          (λ s' own' items'.
            Tree K s'.pages height low high p own' items'
            × (parent_in K (s'.pages p) ≡ parent_in K (s.pages p)))
          (λ s' new m own' items'.
            (o ≡ insert_entry_into_parent K sizes (fuel - height) p new m s')
            × Pair height low high p new m s s' own' items')

    abbrev pub KidsResult :
        Item K
        → List (Item K)
        → ℕ
        → ℕ
        → Index K
        → (ℕ → ℕ)
        → List (Item K)
        → Outcome (Index K) (Unit {0})
        → Type 0
    KidsResult x rest q c s own items o =
        Result key r (suc height) s own items o
          (λ s' own' items'.
            Kids K (Tree K s'.pages height) low high x rest own' items'
            × All (Names K s'.pages q) (x ∷ rest))
          (λ s' new m own' items'.
            (o ≡ insert_entry_into_parent K sizes (fuel - height) c new m s')
            × (parent_in K (s'.pages c) ≡ some q)
            × Grown height low high x rest q new m s' own' items')
