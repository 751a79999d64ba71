-- ===== src/Index/SortedParts.antt =====
-- The parts of a list of items in order, and two such lists on the two sides of a key.
use Prim.Native.Nat.{Ordering}
use miniob4cqu_db_exp.Common.{◌≡◌, refl, sym, ap, ◌∙◌, some, List, [], ◌∷◌, ◌++◌, All, All-append}
use miniob4cqu_db_exp.Index.Page.{IndexKeys, Item}
use miniob4cqu_db_exp.Index.LeafOrder.{IsSorted, Before}
use miniob4cqu_db_exp.Index.Shape.{AtLeast, Under, All-map}

module _ (K : IndexKeys) where
  pub IsSorted-right : (xs ys : List (Item K)) → IsSorted K (xs ++ ys) → IsSorted K ys
  IsSorted-right [] ys h = h
  IsSorted-right (z ∷ xs) ys h = IsSorted-right xs ys h.1

  All-middle :
      (P : Item K → Type 0) (xs : List (Item K)) (z : Item K) (ys : List (Item K))
      → All P (xs ++ z ∷ ys)
      → P z
  All-middle P [] z ys h = h.0
  All-middle P (w ∷ xs) z ys h = All-middle P xs z ys h.1

  pub lower-Before :
      (y : Item K) (xs ys : List (Item K)) → IsSorted K (xs ++ y ∷ ys) → All (λ z. Before K z y) xs
  lower-Before y [] ys h = tt
  lower-Before y (z ∷ xs) ys h = (All-middle (Before K z) xs y ys h.0, lower-Before y xs ys h.1)

  pub IsSorted-left : (xs ys : List (Item K)) → IsSorted K (xs ++ ys) → IsSorted K xs
  IsSorted-left [] ys h = tt
  IsSorted-left (z ∷ xs) ys h = (all-left xs h.0, IsSorted-left xs ys h.1)
    where
      all-left : (ws : List (Item K)) → All (Before K z) (ws ++ ys) → All (Before K z) ws
      all-left [] h = tt
      all-left (w ∷ ws) h = (h.0, all-left ws h.1)

  open K.order use {compare_keys, compare-self, compare-eq, compare-gt, compare-lt, compare-trans}

  pub Before-bound :
      (bound x y : Item K) → Under K (some bound.0) x → AtLeast K (some bound.0) y → Before K x y
  Before-bound bound x y under above = by_order (compare_keys bound.0 y.0) refl
    where
      by_order : (o : Ordering) → compare_keys bound.0 y.0 ≡ o → Before K x y
      by_order Ordering.lt k = compare-trans x.0 bound.0 y.0 under k
      by_order Ordering.eq k = ap (compare_keys x.0) (sym (compare-eq bound.0 y.0 k)) ∙ under
      by_order Ordering.gt k = absurd (above k)

  pub IsSorted-append :
      (bound : Item K) (xs ys : List (Item K))
      → IsSorted K xs
      → IsSorted K ys
      → All (Under K (some bound.0)) xs
      → All (AtLeast K (some bound.0)) ys
      → IsSorted K (xs ++ ys)
  IsSorted-append bound [] ys s t under above = t
  IsSorted-append bound (x ∷ xs) ys s t under above = (
    All-append (Before K x) xs ys s.0 (
        All-map K (AtLeast K (some bound.0)) (Before K x) ys (λ y. Before-bound bound x y under.0)
          above),
    IsSorted-append bound xs ys s.1 t under.1 above,
  )
