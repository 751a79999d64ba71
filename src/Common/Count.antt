-- ===== src/Common/Count.antt =====
-- How many numbers below a bound satisfy a Boolean test.
use Prim.Native.Nat.{ℕ, zero, suc, ◌+◌, ◌≤◌, ◌<◌}
use mathlib.Core.Path.{◌≡◌, refl, sym, ap, ◌∙◌}
use mathlib.Core.Bool.{Bool, true, false, ◌||◌}
use mathlib.Core.Logic.{inl, inr}
use native.Mathlib.Omega.{arith}
use miniob4cqu_db_exp.Common.Tests.{◌==◌, if◌then◌else◌, ==_iff, Bool-cases}

unfoldable pub count_below : (ℕ → Bool) → ℕ → ℕ
count_below p zero = 0
count_below p (suc n) = (if p n then 1 else 0) + count_below p n

pub count_below-le : (p : ℕ → Bool) (n : ℕ) → count_below p n ≤ n
unfolding count_below
count_below-le p zero = omega arith
count_below-le p (suc n) = ground (arith, count_below-le p n)

pub count_below_cong :
    (p q : ℕ → Bool) (n : ℕ) → ((j : ℕ) → j < n → p j ≡ q j) → count_below p n ≡ count_below q n
unfolding count_below
count_below_cong p q zero h = refl
count_below_cong p q (suc n) h =
    ground (arith, h n (omega arith), count_below_cong p q n (λ j k. h j (omega arith)))

-- One more number satisfies `q` than `p`.
pub count_below_insert :
    (p q : ℕ → Bool) (i n : ℕ)
    → i < n
    → p i ≡ false
    → ((j : ℕ) → q j ≡ (i == j || p j))
    → count_below q n ≡ count_below p n + 1
unfolding count_below
count_below_insert p q i zero lt miss h = absurd (omega arith)
count_below_insert p q i (suc n) lt miss h = elim (Bool-cases (i == n)) [
  | inl here ↦
      let e : i ≡ n = (==_iff i n).0 here in
      ground (arith, h n, h i, count_below_cong q p n (λ j k. ground (arith, h j)))
  | inr there ↦ ground (arith, h n, count_below_insert p q i n (ground arith) miss h)
]

-- All of them, if no number below the bound fails the test.
pub count_below_all : (p : ℕ → Bool) (n : ℕ) → ((j : ℕ) → j < n → p j ≡ true) → count_below p n ≡ n
unfolding count_below
count_below_all p zero h = refl
count_below_all p (suc n) h =
    ground (arith, h n (omega arith), count_below_all p n (λ j k. h j (omega arith)))

pub count_below_none :
    (p : ℕ → Bool) (n : ℕ) → ((j : ℕ) → j < n → p j ≡ false) → count_below p n ≡ 0
unfolding count_below
count_below_none p zero h = refl
count_below_none p (suc n) h =
    ground (arith, h n (omega arith), count_below_none p n (λ j k. h j (omega arith)))

-- If as many are counted as there are numbers below the bound, no number fails the test.
pub count_below-full : (p : ℕ → Bool) (n : ℕ) → count_below p n ≡ n → (j : ℕ) → j < n → p j ≡ true
unfolding count_below
count_below-full p zero e j lt = absurd (omega arith)
count_below-full p (suc n) e j lt = elim (Bool-cases (p n)) [
  | inr miss ↦ absurd (ground (arith, e, miss, count_below-le p n))
  | inl hit ↦ elim (Bool-cases (n == j)) [
    | inl here ↦ ap p (sym ((==_iff n j).0 here)) ∙ hit
    | inr there ↦
        let rest : count_below p n ≡ n = ground (arith, e, hit) in
        count_below-full p n rest j (ground (arith, there))
  ]
]
