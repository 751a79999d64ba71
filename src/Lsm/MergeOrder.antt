-- ===== src/Lsm/MergeOrder.antt =====
-- The merging iterator shows all entries of its children, in order.
use mathlib.Core.List.{Permᴰ}
use miniob4cqu_db_exp.Common.{
  ℕ, zero, suc, ◌≤◌, ◌≡◌, refl, sym, subst, inl, inr, none, some, List, [], ◌∷◌, length, All, arith,
  Option-cases,
}
use miniob4cqu_db_exp.Lsm.Keys.{KeyOrder, Entry, IsSorted}
use miniob4cqu_db_exp.Lsm.Merge.{find_smallest, advance, merge_from, merge}
use miniob4cqu_db_exp.Lsm.EntryOrder.{NotBehind, InOrder, entries_of, All-Perm, length-Perm}
use miniob4cqu_db_exp.Lsm.FindSmallest.{
  IsFound, find_smallest-IsFound, find_smallest-none, advance-IsSorted,
}

module _ (O : KeyOrder) where
  -- What the merging iterator shows of the children.
  abbrev pub IsMerged : ℕ → List (List (Entry O)) → Type 0
  IsMerged fuel children =
      (out : List (Entry O)) × (merge O fuel children ≡ some out)
      × Permᴰ out (entries_of O children)
      × InOrder O out

  nothing_left :
      (fuel : ℕ) (children : List (List (Entry O)))
      → find_smallest O 0 none children ≡ none
      → IsMerged fuel children
  unfolding merge merge_from
  nothing_left fuel children over = (
    [],
    rw over refl,
    subst (λ (l : List (Entry O)). Permᴰ [] l) (sym (find_smallest-none O 0 none children over).1)
        Permᴰ.nil,
    tt,
  )

  taken_out :
      (children : List (List (Entry O))) (j : ℕ) (e : Entry O)
      → IsFound O 0 none children j e
      → Permᴰ (e ∷ entries_of O (advance O 0 j children)) (entries_of O children)
  taken_out children j e f = elim f.origin [
    | inl stood ↦ absurd (ground (arith, stood))
    | inr (le, p) ↦ p
  ]

  one_more :
      (fuel : ℕ) (children : List (List (Entry O))) (j : ℕ) (e : Entry O)
      → find_smallest O 0 none children ≡ some (j, e)
      → IsFound O 0 none children j e
      → IsMerged fuel (advance O 0 j children)
      → IsMerged (suc fuel) children
  unfolding merge merge_from
  one_more fuel children j e hit f (out, shows, perm, order) =
      let p = Permᴰ.trans (Permᴰ.cons refl perm) (taken_out children j e f) in
      (e ∷ out, rw (hit, shows) refl, p, ((All-Perm O (NotBehind O e) p f.least).1, order))

  -- Children that are each in the strict order of internal keys, with fuel for all their entries,
  -- are merged: the iterator shows every entry of every child exactly once, and no entry behind one
  -- that the order of internal keys puts after it.
  pub merge-InOrder :
      (fuel : ℕ) (children : List (List (Entry O)))
      → All (IsSorted O) children
      → length (entries_of O children) ≤ fuel
      → (out : List (Entry O)) × (merge O fuel children ≡ some out)
        × Permᴰ out (entries_of O children)
        × InOrder O out
  merge-InOrder zero children a enough = elim (Option-cases (find_smallest O 0 none children)) [
    | inl over ↦ nothing_left zero children over
    | inr ((j, e), hit) ↦ absurd (
        omega (
          arith,
          length-Perm O
              (taken_out children j e (find_smallest-IsFound O 0 none children j e a hit)),
        ))
  ]
  merge-InOrder (suc fuel) children a enough =
      elim (Option-cases (find_smallest O 0 none children)) [
        | inl over ↦ nothing_left (suc fuel) children over
        | inr ((j, e), hit) ↦
            let f = find_smallest-IsFound O 0 none children j e a hit in
            one_more fuel children j e hit f (
              merge-InOrder fuel (advance O 0 j children) (advance-IsSorted O 0 j children a)
                (omega (arith, length-Perm O (taken_out children j e f))))
      ]
