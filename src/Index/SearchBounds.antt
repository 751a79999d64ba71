-- ===== src/Index/SearchBounds.antt =====
-- The binary search of `lower_bound` finds what a search from the left finds.
use Prim.Native.Nat.{Ordering}
use miniob4cqu_db_exp.Common.{
  ℕ, zero, suc, ◌+◌, ◌-◌, ◌/◌, ◌≤◌, ◌<◌, ◌≡◌, refl, sym, Bool, true, false, some, ◌⊎◌, inl, inr,
  List, [], ◌∷◌, length, get_elem?, ◌==◌, arith, Bool-cases,
}
use miniob4cqu_db_exp.Index.Search.{lower_bound_loop, lower_bound}

module _ {ℓ} {T : Type ℓ} (comp : T → Ordering) where
  -- The search from the left.
  abbrev pub found_at : ℕ → Ordering → ℕ × Bool → ℕ × Bool
  found_at i Ordering.lt rest = (suc rest.0, rest.1)
  found_at i Ordering.eq rest = (0, true)
  found_at i Ordering.gt rest = (0, false)

  abbrev pub first_not_below : List T → ℕ × Bool
  first_not_below [] = (0, false)
  first_not_below (x ∷ items) = found_at 0 (comp x) (first_not_below items)

  -- Of two items in order, the first is below the value or the second is above it.
  abbrev pub IsAscending : List T → Type ℓ
  IsAscending items =
      (i j : ℕ) (x y : T)
      → i < j
      → get_elem? items i ≡ some x
      → get_elem? items j ≡ some y
      → (comp x ≡ Ordering.lt) ⊎ (comp y ≡ Ordering.gt)

  abbrev Below : List T → ℕ → Type ℓ
  Below items first =
      (j : ℕ) (x : T) → j < first → get_elem? items j ≡ some x → comp x ≡ Ordering.lt

  abbrev Above : List T → ℕ → Type ℓ
  Above items last = (j : ℕ) (x : T) → last ≤ j → get_elem? items j ≡ some x → comp x ≡ Ordering.gt

  -- What fixes the result of the search.
  abbrev Stops : List T → ℕ × Bool → Type ℓ
  Stops items (i, found) =
      Below items i
      × (i ≤ length items)
      × (((found ≡ false) × Above items i)
          ⊎ ((found ≡ true) × (x : T) × (get_elem? items i ≡ some x) × (comp x ≡ Ordering.eq)))

  Stops-unique : (items : List T) (r : ℕ × Bool) → Stops items r → first_not_below items ≡ r
  Stops-unique [] (zero, found) (below, le, inl (not_found, above)) = ground (arith, not_found)
  Stops-unique [] (zero, found) (below, le, inr (is, x, at, same)) = absurd (ground (arith, at))
  Stops-unique [] (suc i, found) (below, le, end) = absurd (omega arith)
  Stops-unique (x ∷ items) (zero, found) (below, le, inl (not_found, above)) =
      ground (arith, not_found, above 0 x (omega arith) refl)
  Stops-unique (x ∷ items) (zero, found) (below, le, inr (is, y, at, same)) =
      ground (arith, is, at, same)
  Stops-unique (x ∷ items) (suc i, found) (below, le, end) =
      let later : first_not_below items ≡ (i, found) =
        Stops-unique items (i, found)
          (λ j y less at. below (suc j) y (omega arith) at, omega arith, shift end) in
      rw (below 0 x (omega arith) refl, later) refl
    where
      shift :
          (((found ≡ false) × Above (x ∷ items) (suc i))
            ⊎ ((found ≡ true) × (y : T) × (get_elem? items i ≡ some y) × (comp y ≡ Ordering.eq)))
          → (((found ≡ false) × Above items i)
              ⊎ ((found ≡ true) × (y : T) × (get_elem? items i ≡ some y) × (comp y ≡ Ordering.eq)))
      shift (inl (not_found, above)) =
          inl (not_found, λ j y less at. above (suc j) y (omega arith) at)
      shift (inr found) = inr found

  in_range : (items : List T) (i : ℕ) → i < length items → (x : T) × (get_elem? items i ≡ some x)
  in_range [] i h = absurd (omega arith)
  in_range (x ∷ items) zero h = (x, refl)
  in_range (x ∷ items) (suc i) h = in_range items i (omega arith)

  lt-Below :
      (items : List T) (i : ℕ) (x : T)
      → IsAscending items
      → get_elem? items i ≡ some x
      → comp x ≡ Ordering.lt
      → Below items (i + 1)
  lt-Below items i x s at c j y less at' = elim (Bool-cases (j == i)) [
    | inl same ↦ ground (arith, same, at, at', c)
    | inr ne ↦ ground (arith, s j i y x (ground (arith, ne, less)) at' at, c)
  ]

  eq-Below :
      (items : List T) (i : ℕ) (x : T)
      → IsAscending items
      → get_elem? items i ≡ some x
      → comp x ≡ Ordering.eq
      → Below items i
  eq-Below items i x s at c j y less at' = ground (arith, s j i y x less at' at, c)

  gt-Above :
      (items : List T) (i : ℕ) (x : T)
      → IsAscending items
      → get_elem? items i ≡ some x
      → comp x ≡ Ordering.gt
      → Above items i
  gt-Above items i x s at c j y less at' = elim (Bool-cases (i == j)) [
    | inl same ↦ ground (arith, same, at, at', c)
    | inr ne ↦ ground (arith, s i j x y (ground (arith, ne, less)) at at', c)
  ]

  loop-Stops :
      (fuel : ℕ) (items : List T) (first last_count : ℕ)
      → IsAscending items
      → last_count ≤ fuel
      → first + last_count ≤ length items
      → Below items first
      → Above items (first + last_count)
      → Stops items (lower_bound_loop comp fuel items first last_count)
  unfolding lower_bound_loop
  loop-Stops zero items first last_count s f within below above =
      (below, omega arith, inl (refl, λ j x less. above j x (omega arith)))
  loop-Stops (suc fuel) items first last_count s f within below above =
      elim (Bool-cases (last_count == 0)) [
        | inl none_left ↦
            rw (none_left, lower_bound_loop)
              (
                below,
                omega arith,
                inl (refl, λ j x less. above j x (ground (arith, none_left, less))),
              )
        | inr some_left ↦
            let (x, at) = in_range items (first + last_count / 2) (ground (arith, some_left)) in
            rw (some_left, lower_bound_loop)
              (rw (at, lower_bound_loop)
                (by_order x at (ground (arith, some_left)) (comp x) refl (loop-Stops fuel items)))
      ]
    where
      by_order :
          (x : T)
          → get_elem? items (first + last_count / 2) ≡ some x
          → 0 < last_count
          → (o : Ordering) → comp x ≡ o
          → ((first last_count : ℕ)
              → IsAscending items
              → last_count ≤ fuel
              → first + last_count ≤ length items
              → Below items first
              → Above items (first + last_count)
              → Stops items (lower_bound_loop comp fuel items first last_count))
          → Stops items (elim o [
            | Ordering.eq ↦ (first + last_count / 2, true)
            | Ordering.lt ↦
                lower_bound_loop comp fuel items
                  (first + last_count / 2 + 1)
                  (last_count - (last_count / 2 + 1))
            | Ordering.gt ↦ lower_bound_loop comp fuel items first (last_count / 2)
          ])
      by_order x at pos Ordering.lt c loop =
          loop (first + last_count / 2 + 1) (last_count - (last_count / 2 + 1)) s (omega arith)
            (omega arith) (lt-Below items (first + last_count / 2) x s at c)
            (λ j y less. above j y (omega arith))
      by_order x at pos Ordering.eq c loop =
          (eq-Below items (first + last_count / 2) x s at c, omega arith, inr (refl, x, at, c))
      by_order x at pos Ordering.gt c loop =
          loop first (last_count / 2) s (omega arith) (omega arith) below
            (gt-Above items (first + last_count / 2) x s at c)

  -- On items in ascending order the binary search gives the index and the answer of a search from
  -- the left, for any comparison.
  pub lower_bound-first_not_below :
      (items : List T) → IsAscending items → lower_bound comp items ≡ first_not_below items
  unfolding lower_bound
  lower_bound-first_not_below items s = sym (
      Stops-unique items _ (
        loop-Stops (length items) items 0 (length items) s (omega arith) (omega arith)
          (λ j x less. absurd (omega arith))
          (λ j x le at. absurd (past items j x (omega arith) at))))
    where
      past : (items : List T) (j : ℕ) (x : T) → length items ≤ j → get_elem? items j ≡ some x → ⊥
      past [] j x le at = ground (arith, at)
      past (y ∷ items) zero x le at = omega arith
      past (y ∷ items) (suc j) x le at = past items j x (omega arith) at
