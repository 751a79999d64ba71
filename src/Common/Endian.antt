-- ===== src/Common/Endian.antt =====
-- Numbers as bytes in memory, the low byte first.
use Prim.Native.Nat.{ℕ, zero, suc, ◌+◌, ◌*◌, ◌/◌, ◌%◌, ◌<◌}
use mathlib.Core.Path.{◌≡◌, refl, ap}
use mathlib.Core.List.{List, [], ◌∷◌}
use native.Mathlib.Omega.{arith}
use miniob4cqu_db_exp.Common.Lists.{length}

abbrev pub pow256 : ℕ → ℕ
pow256 zero = 1
pow256 (suc k) = 256 * pow256 k

unfoldable pub little_endian : ℕ → ℕ → List ℕ
little_endian zero x = []
little_endian (suc k) x = (x % 256) ∷ little_endian k (x / 256)

unfoldable pub from_little_endian : List ℕ → ℕ
from_little_endian [] = 0
from_little_endian (b ∷ bytes) = b + 256 * from_little_endian bytes

pub length-little_endian : (k x : ℕ) → length (little_endian k x) ≡ k
unfolding little_endian
length-little_endian zero x = refl
length-little_endian (suc k) x = ap suc (length-little_endian k (x / 256))

pub from_little_endian-little_endian :
    (k x : ℕ) → x < pow256 k → from_little_endian (little_endian k x) ≡ x
unfolding little_endian from_little_endian
from_little_endian-little_endian zero x h = omega arith
from_little_endian-little_endian (suc k) x h =
    omega (arith, from_little_endian-little_endian k (x / 256) (omega arith))
