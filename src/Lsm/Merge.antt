-- ===== src/Lsm/Merge.antt =====
-- ObMergingIterator (oblsm/table/ob_merger.cpp). A child iterator is the list of the entries from
-- its position on; it is valid if there is one. The pointer `current_` is the index of a child.
use Prim.Native.Nat.{Ordering}
use mathlib.Core.Option
use miniob4cqu_db_exp.Common.{ℕ, zero, suc, Option, none, some, List, [], ◌∷◌, ◌==◌, if◌then◌else◌}
use miniob4cqu_db_exp.Lsm.Keys.{KeyOrder, Entry, compare_internal}

module _ (O : KeyOrder) where
  abbrev pub Found : Type 0
  Found = Option (ℕ × Entry O)

  -- The body of the loop of `find_smallest`, for the child i.
  unfoldable pub smaller : ℕ → List (Entry O) → Found → Found
  unfolding compare_internal
  smaller i [] smallest = smallest
  smaller i (e ∷ rest) none = some (i, e)
  smaller i (e ∷ rest) (some (j, d)) = elim (compare_internal O e d) [
    | Ordering.lt ↦ some (i, e)
    | _ ↦ some (j, d)
  ]

  -- `find_smallest`, from the child i on.
  unfoldable pub find_smallest : ℕ → Found → List (List (Entry O)) → Found
  unfolding smaller
  find_smallest i smallest [] = smallest
  find_smallest i smallest (child ∷ children) =
      find_smallest (suc i) (smaller i child smallest) children

  abbrev pub rest_of : List (Entry O) → List (Entry O)
  rest_of [] = []
  rest_of (e ∷ rest) = rest

  -- `current_->next()`, for the children from i on.
  unfoldable pub advance : ℕ → ℕ → List (List (Entry O)) → List (List (Entry O))
  advance i current [] = []
  advance i current (child ∷ children) =
      if i == current then rest_of child ∷ children else child ∷ advance (suc i) current children

  -- What the iterator shows from `seek_to_first` on, while it is valid and `next` is called; `none`
  -- means that the fuel ran out.
  unfoldable pub merge_from : ℕ → Found → List (List (Entry O)) → Option (List (Entry O))
  unfolding find_smallest advance
  merge_from fuel none children = some []
  merge_from zero (some (i, e)) children = none
  merge_from (suc fuel) (some (i, e)) children =
      let moved = advance 0 i children in
      Option.map (◌∷◌ e) (merge_from fuel (find_smallest 0 none moved) moved)

  unfoldable pub merge : ℕ → List (List (Entry O)) → Option (List (Entry O))
  unfolding find_smallest merge_from
  merge fuel children = merge_from fuel (find_smallest 0 none children) children
