-- ===== src/Common/Table.antt =====
-- Tables: a Boolean test that holds for each number of a range, checked by evaluation.
use Prim.Native.Nat.{ℕ, zero, suc, ◌+◌, ◌≤◌, ◌<◌}
use mathlib.Core.Path.{◌≡◌}
use mathlib.Core.Bool.{Bool, true, ◌&&◌}
use native.Mathlib.Omega.{arith}

-- The test holds from `from` on, for `rows` numbers.
unfoldable pub holds_from : (ℕ → Bool) → ℕ → ℕ → Bool
holds_from test from zero = true
holds_from test from (suc rows) = holds_from test (suc from) rows && test from

unfoldable pub table : ℕ → (ℕ → Bool) → Bool
unfolding holds_from
table rows test = holds_from test 0 rows

holds_from_row :
    (test : ℕ → Bool) (from rows i : ℕ)
    → from ≤ i
    → i < from + rows
    → holds_from test from rows ≡ true
    → test i ≡ true
unfolding holds_from
holds_from_row test from zero i lo hi all = absurd (omega arith)
holds_from_row test from (suc rows) i lo hi all =
    ground (arith, holds_from_row test (suc from) rows i)

pub table_row :
    (rows : ℕ) (test : ℕ → Bool) (i : ℕ) → table rows test ≡ true → i < rows → test i ≡ true
unfolding table
table_row rows test i all hi = holds_from_row test 0 rows i (omega arith) (omega arith) all
