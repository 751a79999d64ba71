-- ===== src/Lsm/FindSmallest.antt =====
-- `find_smallest` finds the least of the entries in front (oblsm/table/ob_merger.cpp).
use Prim.Native.Nat.{Ordering}
use mathlib.Core.List.{Permᴰ}
use mathlib.Core.List.Permᴰ
use miniob4cqu_db_exp.Common.{
  ℕ, suc, ◌≤◌, ◌≡◌, ◌≢◌, refl, sym, subst, ==_iff, ap, ◌∙◌, ◌⊎◌, inl, inr, false, none, some, List,
  [], ◌∷◌, ◌++◌, All, All-append, arith, ◌==◌, Bool-cases,
}
use miniob4cqu_db_exp.Lsm.Keys.{KeyOrder, Entry, compare_internal, Ahead, IsSorted}
use miniob4cqu_db_exp.Lsm.Merge.{Found, smaller, find_smallest, rest_of, advance}
use miniob4cqu_db_exp.Lsm.EntryOrder.{
  NotBehind, entries_of, NotBehind-refl, Ahead-NotBehind, NotBehind-trans, NotAhead-NotBehind,
  behind_head, take_later,
}

module _ (O : KeyOrder) where
  open O use {Key, compare_keys}

  -- What `find_smallest` has found: the entry stood before or is taken out of the children, and no
  -- entry of the children, nor the one that stood before, is before it.
  pub record IsFound (i : ℕ) (s : Found O) (children : List (List (Entry O))) (j : ℕ) (e : Entry O)
      : Type 0 where
    pub origin :
        (s ≡ some (j, e))
        ⊎ ((i ≤ j) × Permᴰ (e ∷ entries_of O (advance O i j children)) (entries_of O children))
    pub least : All (NotBehind O e) (entries_of O children)
    pub least_before : (k : ℕ) (d : Entry O) → s ≡ some (k, d) → NotBehind O e d

  -- A child with an entry, of which the search goes on with `s'`.
  found_cons :
      (i : ℕ) (s s' : Found O) (c : Entry O) (r : List (Entry O)) (children : List (List (Entry O)))
      (j : ℕ) (e : Entry O)
      → All (Ahead O c) r
      → IsFound (suc i) s' children j e
      → (s' ≡ some (i, c)) ⊎ (s' ≡ s)
      → NotBehind O e c
      → ((k : ℕ) (d : Entry O) → s ≡ some (k, d) → NotBehind O e d)
      → IsFound i s ((c ∷ r) ∷ children) j e
  unfolding advance
  found_cons i s s' c r children j e a f from h before = record {
    origin = elim f.origin [
      | inl stood ↦ elim from [
        | inl here ↦
            let same : i ≡ j = ground (arith, stood, here) in
            let e_c : e ≡ c = ground (arith, stood, here) in
            inr (
              omega arith,
              rw ((==_iff i j).1 same, e_c) (Permᴰ.refl (c ∷ (r ++ entries_of O children))),
            )
        | inr kept ↦ inl (sym kept ∙ stood)
      ]
      | inr (later, p) ↦
          let past : (i == j) ≡ false = ground arith in
          inr (
            omega arith,
            rw past (
                take_later O e (c ∷ r) (entries_of O (advance O (suc i) j children))
                  (entries_of O children) p),
          )
    ];
    least =
        All-append (NotBehind O e) (c ∷ r) (entries_of O children) (h, behind_head O e c r h a)
          f.least;
    least_before = before;
  }

  smaller-cases :
      (i k : ℕ) (c d : Entry O) (r : List (Entry O))
      → ((smaller O i (c ∷ r) (some (k, d)) ≡ some (i, c)) × Ahead O c d)
        ⊎ ((smaller O i (c ∷ r) (some (k, d)) ≡ some (k, d))
            × (compare_internal O c d ≢ Ordering.lt))
  unfolding smaller
  smaller-cases i k c d r = by_order (compare_internal O c d) refl
    where
      by_order :
          (o : Ordering)
          → compare_internal O c d ≡ o
          → ((smaller O i (c ∷ r) (some (k, d)) ≡ some (i, c)) × Ahead O c d)
            ⊎ ((smaller O i (c ∷ r) (some (k, d)) ≡ some (k, d))
                × (compare_internal O c d ≢ Ordering.lt))
      by_order Ordering.lt e = inl (ground (arith, e), e)
      by_order Ordering.eq e = inr (ground (arith, e), λ f. ground (arith, e, f))
      by_order Ordering.gt e = inr (ground (arith, e), λ f. ground (arith, e, f))

  pub find_smallest-IsFound :
      (i : ℕ) (s : Found O) (children : List (List (Entry O))) (j : ℕ) (e : Entry O)
      → All (IsSorted O) children
      → find_smallest O i s children ≡ some (j, e)
      → IsFound i s children j e
  find_smallest-IsFound i s [] j e a h = record {
    origin = unfold find_smallest in inl h;
    least = tt;
    least_before = unfold find_smallest in λ k d g l. NotBehind-refl O e (ground (arith, g, h, l));
  }
  find_smallest-IsFound i s ([] ∷ children) j e a h =
      let f =
        find_smallest-IsFound (suc i) s children j e a.1 (unfold find_smallest smaller in h) in
      record {
        origin = elim f.origin [
          | inl stood ↦ inl stood
          | inr (later, p) ↦
              let past : (i == j) ≡ false = ground arith in
              inr (omega arith, unfold advance in rw past p)
        ];
        least = f.least;
        least_before = f.least_before;
      }
  find_smallest-IsFound i none ((c ∷ r) ∷ children) j e a h =
      let f =
        find_smallest-IsFound (suc i) (some (i, c)) children j e a.1
          (unfold find_smallest smaller in h) in
      found_cons i none (some (i, c)) c r children j e a.0.0 f (inl refl) (f.least_before i c refl)
        (λ k d g. absurd (ground (arith, g)))
  find_smallest-IsFound i (some (k, d)) ((c ∷ r) ∷ children) j e a h =
      elim (smaller-cases i k c d r) [
        | inl (e', ahead) ↦
            let f = find_smallest-IsFound (suc i) (some (i, c)) children j e a.1 (
              ap (λ (x : Found O). find_smallest O (suc i) x children) (sym e')
              ∙ (unfold find_smallest in h)) in
            found_cons i (some (k, d)) (some (i, c)) c r children j e a.0.0 f (inl refl)
              (f.least_before i c refl)
              (λ k' d' g.
                subst (NotBehind O e) (second g)
                  (NotBehind-trans O e c d (f.least_before i c refl) (Ahead-NotBehind O c d ahead)))
        | inr (e', behind) ↦
            let f = find_smallest-IsFound (suc i) (some (k, d)) children j e a.1 (
              ap (λ (x : Found O). find_smallest O (suc i) x children) (sym e')
              ∙ (unfold find_smallest in h)) in
            found_cons i (some (k, d)) (some (k, d)) c r children j e a.0.0 f (inr refl)
              (NotBehind-trans O e d c (f.least_before k d refl) (NotAhead-NotBehind O c d behind))
              f.least_before
      ]
    where
      second :
          {k' k : ℕ} {d' d : Entry O} → ◌≡◌ {A = Found O} (some (k, d)) (some (k', d')) → d ≡ d'
      second g = ground (arith, g)

  pub find_smallest-none :
      (i : ℕ) (s : Found O) (children : List (List (Entry O)))
      → find_smallest O i s children ≡ none
      → (s ≡ none) × (entries_of O children ≡ [])
  unfolding find_smallest smaller
  find_smallest-none i s [] h = (h, refl)
  find_smallest-none i s ([] ∷ children) h = find_smallest-none (suc i) s children h
  find_smallest-none i none ((c ∷ r) ∷ children) h =
      let f = find_smallest-none (suc i) (some (i, c)) children h in absurd (ground (arith, f.0))
  find_smallest-none i (some (k, d)) ((c ∷ r) ∷ children) h =
      let f = find_smallest-none (suc i) (smaller O i (c ∷ r) (some (k, d))) children h in
      elim (smaller-cases i k c d r) [
        | inl (e, a) ↦ absurd (ground (arith, e, f.0))
        | inr (e, a) ↦ absurd (ground (arith, e, f.0))
      ]

  pub advance-IsSorted :
      (i j : ℕ) (children : List (List (Entry O)))
      → All (IsSorted O) children
      → All (IsSorted O) (advance O i j children)
  unfolding advance
  advance-IsSorted i j [] a = a
  advance-IsSorted i j (child ∷ children) a = elim (Bool-cases (i == j)) [
    | inl here ↦ rw here (rest_sorted child a.0, a.1)
    | inr other ↦ rw other (a.0, advance-IsSorted (suc i) j children a.1)
  ]
    where
      rest_sorted : (l : List (Entry O)) → IsSorted O l → IsSorted O (rest_of O l)
      rest_sorted [] h = tt
      rest_sorted (e ∷ l) h = h.1
