-- ===== src/Index/Whole.antt =====
-- A whole B+ tree: the pages that it takes, its items, and the parent that each page names.
pub mod Frame
pub mod Cut
pub mod Forget
pub mod Change
pub mod Result
pub mod Descend
pub mod DescendLater
pub mod Siblings
pub mod Children
pub mod Parent
pub mod Took
pub mod Halved
pub mod Ascend
pub mod AtLeaf
pub mod LeafCases
pub mod LeafSteps
pub mod Insertion
pub mod NewRoot
pub mod Holds
pub mod Create
pub mod Grow
mod Tests
use Prim.Native.Nat.{Ordering}
use miniob4cqu_db_exp.Common.{
  ℕ, zero, suc, ◌+◌, ◌≡◌, Bool, true, false, Option, none, some, List, [], ◌∷◌, ◌++◌, All, ◌==◌,
  if◌then◌else◌,
}
use miniob4cqu_db_exp.Index.Page.{IndexKeys, Key, Item, Page, node, Slot, rid, child}
use miniob4cqu_db_exp.Index.LeafOrder.{IsSorted}
use miniob4cqu_db_exp.Index.Shape.{AtLeast, Under, OnChild}

-- How often a page is in a list of pages, and in the list that has one page.
abbrev pub one : ℕ → ℕ → ℕ
one p a = if p == a then 1 else 0

abbrev pub occurs : ℕ → List ℕ → ℕ
occurs a [] = 0
occurs a (p ∷ ps) = one p a + occurs a ps

module _ (K : IndexKeys) where
  -- What a page says of the tree below it.
  abbrev pub view : Page K → Option (Bool × List (Item K))
  view (node n) = some (n.is_leaf, n.items)
  view _ = none

  abbrev pub parent_in : Page K → Option ℕ
  parent_in (node n) = n.parent
  parent_in _ = none

  abbrev pub Over : Option (Key K) → Item K → Type 0
  Over none x = Unit
  Over (some low) x = K.order.compare_keys low x.0 ≡ Ordering.lt

  abbrev pub root_of : Slot → ℕ → ℕ
  root_of (child c) a = one c a
  root_of (rid r) a = 0

  abbrev pub roots : List (Item K) → ℕ → ℕ
  roots [] a = 0
  roots (x ∷ items) a = root_of x.1 a + roots items a

  -- The children of a node: each lies between its key and the next one, and has some of the pages
  -- and of the items.
  abbrev pub Kids :
      (Option (Key K) → Option (Key K) → ℕ → (ℕ → ℕ) → List (Item K) → Type 0)
      → Option (Key K)
      → Option (Key K)
      → Item K
      → List (Item K)
      → (ℕ → ℕ)
      → List (Item K)
      → Type 0
  Kids P low high x [] own items = OnChild K (λ c. P low high c own items) x.1
  Kids P low high x (y ∷ rest) own items =
      (first later : ℕ → ℕ) × (left right : List (Item K)) × ((a : ℕ) → own a ≡ first a + later a)
      × (items ≡ left ++ right)
      × OnChild K (λ c. P low (some y.0) c first left) x.1
      × Kids P (some y.0) high y rest later right

  abbrev pub Names : (ℕ → Page K) → ℕ → Item K → Type 0
  Names pages p x = OnChild K (λ c. parent_in (pages c) ≡ some p) x.1

  -- A tree of the height, in the page `p`, with keys between the bounds; `own` says how often it
  -- has each page.
  abbrev pub Tree :
      (ℕ → Page K) → ℕ → Option (Key K) → Option (Key K) → ℕ → (ℕ → ℕ) → List (Item K) → Type 0
  Tree pages zero low high p own items =
      (view (pages p) ≡ some (true, items))
      × IsSorted K items
      × All (AtLeast K low) items
      × All (Under K high) items
      × ((a : ℕ) → own a ≡ one p a)
  Tree pages (suc height) low high p own items =
      (x : Item K) × (rest : List (Item K)) × (kids : ℕ → ℕ) × (view (pages p)
        ≡ some (false, x ∷ rest))
      × IsSorted K rest
      × All (Over low) rest
      × All (Under K high) rest
      × All (Names pages p) (x ∷ rest)
      × ((a : ℕ) → own a ≡ one p a + kids a)
      × Kids (Tree pages height) low high x rest kids items
