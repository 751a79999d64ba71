-- ===== src/Index/Search.antt =====
-- `lower_bound` (src/common/lang/lower_bound.h) over the items of a node.
use Prim.Native.Nat.{Ordering}
use miniob4cqu_db_exp.Common.{
  ℕ, zero, suc, ◌+◌, ◌-◌, ◌/◌, Bool, true, false, none, some, List, length, get_elem?, ◌==◌,
}

module _ {ℓ} {T : Type ℓ} (comp : T → Ordering) where
  -- The loop from `first`, over `last_count` items; `comp` compares an item with the value sought.
  -- The fuel is the number of rounds that are left.
  unfoldable pub lower_bound_loop : ℕ → List T → ℕ → ℕ → ℕ × Bool
  lower_bound_loop zero items first last_count = (first, false)
  lower_bound_loop (suc fuel) items first last_count =
      let step = last_count / 2 in
      elim (last_count == 0) [
        | true ↦ (first, false)
        | false ↦ elim (get_elem? items (first + step)) [
          | none ↦ (first, false)
          | some x ↦ elim (comp x) [
            | Ordering.eq ↦ (first + step, true)
            | Ordering.lt ↦ lower_bound_loop fuel items (first + step + 1) (last_count - (step + 1))
            | Ordering.gt ↦ lower_bound_loop fuel items first step
          ]
        ]
      ]

  -- The index of the first item that is not below the value, and whether it is the value.
  unfoldable pub lower_bound : List T → ℕ × Bool
  unfolding lower_bound_loop
  lower_bound items = lower_bound_loop (length items) items 0 (length items)
