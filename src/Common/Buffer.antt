-- ===== src/Common/Buffer.antt =====
-- `memcpy` into and out of a buffer.
use Prim.Native.Nat.{ℕ, zero, suc, ◌+◌, ◌≤◌}
use mathlib.Core.Path.{◌≡◌, refl, ap}
use mathlib.Core.List.{List, [], ◌∷◌}
use native.Mathlib.Omega.{arith}
use miniob4cqu_db_exp.Common.Lists.{length, take, drop}

module _ {ℓ} {A : Type ℓ} where
  -- `memcpy(area + offset, source, n)`, for a source of n elements; what would pass the end is lost.
  unfoldable pub write : List A → ℕ → List A → List A
  write [] offset source = []
  write (x ∷ xs) zero [] = x ∷ xs
  write (x ∷ xs) zero (s ∷ source) = s ∷ write xs zero source
  write (x ∷ xs) (suc offset) source = x ∷ write xs offset source

  -- The n elements at `area + offset`.
  unfoldable pub read : List A → ℕ → ℕ → List A
  read area offset n = take n (drop offset area)

  pub length-write :
      (area : List A) (offset : ℕ) (source : List A)
      → length (write area offset source) ≡ length area
  unfolding write
  length-write [] offset source = refl
  length-write (x ∷ xs) zero [] = refl
  length-write (x ∷ xs) zero (s ∷ source) = ap suc (length-write xs zero source)
  length-write (x ∷ xs) (suc offset) source = ap suc (length-write xs offset source)

  pub length-read :
      (area : List A) (offset n : ℕ) → offset + n ≤ length area → length (read area offset n) ≡ n
  unfolding read
  length-read area offset zero h = refl
  length-read [] zero (suc n) h = absurd (omega arith)
  length-read [] (suc offset) (suc n) h = absurd (omega arith)
  length-read (x ∷ xs) zero (suc n) h = ap suc (length-read xs zero n (omega arith))
  length-read (x ∷ xs) (suc offset) (suc n) h = length-read xs offset (suc n) (omega arith)

  pub read-write_self :
      (area : List A) (offset : ℕ) (source : List A)
      → offset + length source ≤ length area
      → read (write area offset source) offset (length source) ≡ source
  unfolding write read
  read-write_self [] zero [] h = refl
  read-write_self [] (suc offset) [] h = refl
  read-write_self [] offset (s ∷ source) h = absurd (omega arith)
  read-write_self (x ∷ xs) zero [] h = refl
  read-write_self (x ∷ xs) zero (s ∷ source) h =
      ap (◌∷◌ s) (read-write_self xs zero source (omega arith))
  read-write_self (x ∷ xs) (suc offset) source h = read-write_self xs offset source (omega arith)

  -- A write that ends before the read begins.
  pub read-write_after :
      (area : List A) (offset at n : ℕ) (source : List A)
      → offset + length source ≤ at
      → read (write area offset source) at n ≡ read area at n
  unfolding write read
  read-write_after [] offset at n source h = refl
  read-write_after (x ∷ xs) zero at n [] h = refl
  read-write_after (x ∷ xs) zero zero n (s ∷ source) h = absurd (omega arith)
  read-write_after (x ∷ xs) zero (suc at) n (s ∷ source) h =
      read-write_after xs zero at n source (omega arith)
  read-write_after (x ∷ xs) (suc offset) zero n source h = absurd (omega arith)
  read-write_after (x ∷ xs) (suc offset) (suc at) n source h =
      read-write_after xs offset at n source (omega arith)

  -- A write that begins after the read ends.
  pub read-write_before :
      (area : List A) (offset at n : ℕ) (source : List A)
      → at + n ≤ offset
      → read (write area offset source) at n ≡ read area at n
  unfolding write read
  read-write_before area offset at zero source h = refl
  read-write_before [] offset at (suc n) source h = refl
  read-write_before (x ∷ xs) zero at (suc n) source h = absurd (omega arith)
  read-write_before (x ∷ xs) (suc offset) zero (suc n) source h =
      ap (◌∷◌ x) (read-write_before xs offset zero n source (omega arith))
  read-write_before (x ∷ xs) (suc offset) (suc at) (suc n) source h =
      read-write_before xs offset at (suc n) source (omega arith)
