-- ===== src/Common/Slots.antt =====
-- A table as a list of slots, each free or taken: what is found in a slot after a change.
use Prim.Native.Nat.{ℕ, zero, suc}
use mathlib.Core.Path.{◌≡◌, refl}
use mathlib.Core.List.{List, [], ◌∷◌, ◌++◌}
use mathlib.Core.Option.{Option, none, some}
use native.Mathlib.Omega.{arith}
use miniob4cqu_db_exp.Common.Tests.{◌==◌, if◌then◌else◌}
use miniob4cqu_db_exp.Common.Lists.{length, get_or, set}

module _ {ℓ} {A : Type ℓ} where
  pub get_or-beyond : (s : List (Option A)) → get_or s (length s) none ≡ none
  get_or-beyond [] = refl
  get_or-beyond (x ∷ s) = get_or-beyond s

  pub get_or-push :
      (s : List (Option A)) (r : A) (j : ℕ)
      → get_or (s ++ some r ∷ []) j none ≡ (if length s == j then some r else get_or s j none)
  get_or-push [] r zero = refl
  get_or-push [] r (suc j) = ground arith
  get_or-push (x ∷ s) r zero = ground arith
  get_or-push (x ∷ s) r (suc j) = ground (arith, get_or-push s r j)

  pub get_or-update :
      (s : List (Option A)) (i : ℕ) (old new : A) (j : ℕ)
      → get_or s i none ≡ some old
      → get_or (set s i (some new)) j none ≡ (if i == j then some new else get_or s j none)
  get_or-update [] i old new j h = ground arith
  get_or-update (x ∷ s) zero old new zero h = ground arith
  get_or-update (x ∷ s) zero old new (suc j) h = ground arith
  get_or-update (x ∷ s) (suc i) old new zero h = ground arith
  get_or-update (x ∷ s) (suc i) old new (suc j) h = ground (arith, get_or-update s i old new j h)

  pub get_or-remove :
      (s : List (Option A)) (i j : ℕ)
      → get_or (set s i none) j none ≡ (if i == j then none else get_or s j none)
  get_or-remove [] i j = ground arith
  get_or-remove (x ∷ s) zero zero = ground arith
  get_or-remove (x ∷ s) zero (suc j) = ground arith
  get_or-remove (x ∷ s) (suc i) zero = ground arith
  get_or-remove (x ∷ s) (suc i) (suc j) = ground (arith, get_or-remove s i j)
