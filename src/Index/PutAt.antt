-- ===== src/Index/PutAt.antt =====
-- A list with an item put at an index, and the halves of a list.
use miniob4cqu_db_exp.Common.{
  ℕ, zero, suc, ◌<◌, ◌≤◌, ◌-◌, ◌≡◌, refl, ap, ◌∙◌, List, [], ◌∷◌, ◌++◌, take, drop, length, arith,
}

module _ {ℓ} {A : Type ℓ} where
  -- `x` at the index `i`.
  abbrev pub put_at : ℕ → A → List A → List A
  put_at i x xs = take i xs ++ x ∷ drop i xs

  take-append-drop : (m : ℕ) (xs : List A) → take m xs ++ drop m xs ≡ xs
  take-append-drop zero xs = refl
  take-append-drop (suc m) [] = refl
  take-append-drop (suc m) (x ∷ xs) = ap (◌∷◌ x) (take-append-drop m xs)

  pub put_at-lower :
      (m i : ℕ) (x : A) (xs : List A)
      → i < length (take m xs)
      → put_at i x (take m xs) ++ drop m xs ≡ put_at i x xs
  put_at-lower zero i x xs h = absurd (omega arith)
  put_at-lower (suc m) i x [] h = absurd (omega arith)
  put_at-lower (suc m) zero x (y ∷ xs) h = ap (λ l. x ∷ y ∷ l) (take-append-drop m xs)
  put_at-lower (suc m) (suc i) x (y ∷ xs) h = ap (◌∷◌ y) (put_at-lower m i x xs (omega arith))

  pub put_at-upper :
      (m i : ℕ) (x : A) (xs : List A)
      → length (take m xs) ≤ i
      → take m xs ++ put_at (i - length (take m xs)) x (drop m xs) ≡ put_at i x xs
  put_at-upper zero i x xs h = ap (λ j. put_at j x xs) (omega arith)
  put_at-upper (suc m) i x [] h = ap (λ j. put_at j x []) (omega arith)
  put_at-upper (suc m) zero x (y ∷ xs) h = absurd (omega arith)
  put_at-upper (suc m) (suc i) x (y ∷ xs) h = ap (◌∷◌ y) (
      ap (λ j. take m xs ++ put_at j x (drop m xs)) (omega arith)
      ∙ put_at-upper m i x xs (omega arith))

  pub put_at-cons :
      (i : ℕ) (x : A) (xs : List A) → (y : A) × (rest : List A) × (put_at i x xs ≡ y ∷ rest)
  put_at-cons zero x xs = (x, xs, refl)
  put_at-cons (suc i) x [] = (x, [], refl)
  put_at-cons (suc i) x (y ∷ xs) = (y, put_at i x xs, refl)

  pub take-cons :
      (m : ℕ) (xs : List A)
      → 1 ≤ m
      → 1 ≤ length xs
      → (y : A) × (rest : List A) × (take m xs ≡ y ∷ rest)
  take-cons zero xs h k = absurd (omega arith)
  take-cons (suc m) [] h k = absurd (omega arith)
  take-cons (suc m) (x ∷ xs) h k = (x, take m xs, refl)

  pub drop-cons :
      (m : ℕ) (xs : List A) → m < length xs → (y : A) × (rest : List A) × (drop m xs ≡ y ∷ rest)
  drop-cons m [] h = absurd (omega arith)
  drop-cons zero (x ∷ xs) h = (x, xs, refl)
  drop-cons (suc m) (x ∷ xs) h = drop-cons m xs (omega arith)
