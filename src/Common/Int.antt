-- ===== src/Common/Int.antt =====
-- Signed integers over the native numbers, for the values that the program keeps in an int32_t.
use Prim.Native.Nat.{ℕ, zero, suc, ◌+◌, ◌-◌}
use mathlib.Core.Path.{◌≡◌}
use mathlib.Core.Bool.{Bool, true, false}
use mathlib.Core.Logic.{◌↔◌}
use native.Mathlib.Omega.{arith}
use miniob4cqu_db_exp.Common.Tests.{◌==◌, leb, if◌then◌else◌}

-- `negsuc n` is -(n + 1).
pub data ℤ : Type 0 where
  pos : ℕ → ℤ
  negsuc : ℕ → ℤ

-- -n
abbrev pub neg : ℕ → ℤ
neg zero = pos 0
neg (suc n) = negsuc n

-- z > 0
abbrev pub is_positive : ℤ → Bool
is_positive (pos zero) = false
is_positive (pos (suc n)) = true
is_positive (negsuc n) = false

-- z < 0
abbrev pub is_negative : ℤ → Bool
is_negative (pos n) = false
is_negative (negsuc n) = true

abbrev pub eq_ℤ : ℤ → ℤ → Bool
eq_ℤ (pos m) (pos n) = m == n
eq_ℤ (negsuc m) (negsuc n) = m == n
eq_ℤ _ _ = false

-- z ≤ n and n ≤ z, for a number n
abbrev pub le_ℕ : ℤ → ℕ → Bool
le_ℕ (pos m) n = leb m n
le_ℕ (negsuc m) n = true

abbrev pub ℕ_le : ℕ → ℤ → Bool
ℕ_le n (pos m) = leb n m
ℕ_le n (negsuc m) = false

-- z + n and z - n, for a number n
abbrev pub add_ℕ : ℤ → ℕ → ℤ
add_ℕ (pos m) n = pos (m + n)
add_ℕ (negsuc m) n = if leb n m then negsuc (m - n) else pos (n - m - 1)

abbrev pub sub_ℕ : ℤ → ℕ → ℤ
sub_ℕ (pos m) n = if leb n m then pos (m - n) else negsuc (n - m - 1)
sub_ℕ (negsuc m) n = negsuc (m + n)

pub eq_ℤ_iff : (a b : ℤ) → (eq_ℤ a b ≡ true) ↔ (a ≡ b)
eq_ℤ_iff (pos m) (pos n) = ground arith
eq_ℤ_iff (pos m) (negsuc n) = ground arith
eq_ℤ_iff (negsuc m) (pos n) = ground arith
eq_ℤ_iff (negsuc m) (negsuc n) = ground arith
