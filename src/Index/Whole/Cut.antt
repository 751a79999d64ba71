-- ===== src/Index/Whole/Cut.antt =====
-- The children of a node are cut in two, and joined.
use mathlib.Core.List.{append_assoc}
use miniob4cqu_db_exp.Common.{
  ℕ, ◌+◌, ◌≡◌, refl, sym, ap, ◌∙◌, Option, some, List, [], ◌∷◌, ◌++◌, arith,
}
use miniob4cqu_db_exp.Index.Page.{IndexKeys, Key, Item}
use miniob4cqu_db_exp.Index.Whole.{Kids}

module _ (K : IndexKeys)
    (P : Option (Key K) → Option (Key K) → ℕ → (ℕ → ℕ) → List (Item K) → Type 0) where
  pub Kids-cut :
      (low high : Option (Key K)) (x : Item K) (before : List (Item K)) (y : Item K)
      (after : List (Item K)) (own : ℕ → ℕ) (items : List (Item K))
      → Kids K P low high x (before ++ y ∷ after) own items
      → (first later : ℕ → ℕ) × (left right : List (Item K)) × ((a : ℕ) → own a ≡ first a + later a)
        × (items ≡ left ++ right)
        × Kids K P low (some y.0) x before first left
        × Kids K P (some y.0) high y after later right
  Kids-cut low high x [] y after own items h = h
  Kids-cut low high x (z ∷ before) y after own items (f, l, i, j, owns, is, t, ts) =
      let (f', l', i', j', owns', is', front, back) =
        Kids-cut (some z.0) high z before y after l j ts in
      (
        λ a. f a + f' a,
        l',
        i ++ i',
        j',
        λ a. omega (arith, owns a, owns' a),
        is ∙ ap (λ k. i ++ k) is' ∙ sym (append_assoc i i' j'),
        (f, f', i, i', λ a. refl, refl, t, front),
        back,
      )
