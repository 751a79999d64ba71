-- ===== src/Index/Whole/Frame.antt =====
-- A tree stays a tree where its pages keep what they say of it.
use miniob4cqu_db_exp.Common.{
  ℕ, zero, suc, ◌≤◌, ◌≡◌, ◌≢◌, refl, ap, ◌∙◌, Option, some, List, [], ◌∷◌, All, ◌==◌, ==_iff,
  Bool-cases, inl, inr, arith,
}
use miniob4cqu_db_exp.Index.Page.{IndexKeys, Key, Item, Page, Slot, rid, child}
use miniob4cqu_db_exp.Index.Shape.{OnChild}
use miniob4cqu_db_exp.Index.Whole.{one, view, parent_in, root_of, roots, Kids, Names, Tree}

pub one_self : (p : ℕ) → one p p ≡ 1
one_self p = rw ((==_iff p p).1 refl) refl

pub one-eq : (p a : ℕ) → 1 ≤ one p a → p ≡ a
one-eq p a h = elim (Bool-cases (p == a)) [
  | inl same ↦ (==_iff p a).0 same
  | inr other ↦ absurd (ground (arith, h, other))
]

pub ne-one : (p a : ℕ) → one p a ≡ 0 → a ≢ p
ne-one p a h same = absurd (omega (arith, one_self p, ap (λ b. one p b) same, h))

module _ (K : IndexKeys) where
  pub Tree-own :
      (pages : ℕ → Page K) (height : ℕ) (low high : Option (Key K)) (p : ℕ) (own : ℕ → ℕ)
      (items : List (Item K))
      → Tree K pages height low high p own items
      → (a : ℕ) → one p a ≤ own a
  Tree-own pages zero low high p own items t a = omega (arith, t.4 a)
  Tree-own pages (suc height) low high p own items t a = omega (arith, t.8 a)

  module _ (pages : ℕ → Page K) (height : ℕ) where
    pub slot-own :
        (low high : Option (Key K)) (slot : Slot) (own : ℕ → ℕ) (items : List (Item K))
        → OnChild K (λ c. Tree K pages height low high c own items) slot
        → (a : ℕ) → root_of K slot a ≤ own a
    slot-own low high (child c) own items t a = Tree-own pages height low high c own items t a
    slot-own low high (rid r) own items t a = elim t [ ]

    pub Kids-roots :
        (low high : Option (Key K)) (x : Item K) (rest : List (Item K)) (own : ℕ → ℕ)
        (items : List (Item K))
        → Kids K (Tree K pages height) low high x rest own items
        → (a : ℕ) → roots K (x ∷ rest) a ≤ own a
    Kids-roots low high x [] own items t a = omega (arith, slot-own low high x.1 own items t a)
    Kids-roots low high x (y ∷ rest) own items (first, later, left, right, owns, is, t, ts) a =
        omega (
          arith,
          owns a,
          slot-own low (some y.0) x.1 first left t a,
          Kids-roots (some y.0) high y rest later right ts a,
        )

  Names-slot :
      (pages pages' : ℕ → Page K) (p : ℕ) (slot : Slot)
      → ((a : ℕ) → 1 ≤ root_of K slot a → parent_in K (pages' a) ≡ parent_in K (pages a))
      → OnChild K (λ c. parent_in K (pages c) ≡ some p) slot
      → OnChild K (λ c. parent_in K (pages' c) ≡ some p) slot
  Names-slot pages pages' p (child c) u h = u c (omega (arith, one_self c)) ∙ h
  Names-slot pages pages' p (rid r) u h = h

  pub Names-frame :
      (pages pages' : ℕ → Page K) (p : ℕ) (items : List (Item K))
      → ((a : ℕ) → 1 ≤ roots K items a → parent_in K (pages' a) ≡ parent_in K (pages a))
      → All (Names K pages p) items
      → All (Names K pages' p) items
  Names-frame pages pages' p [] u h = tt
  Names-frame pages pages' p (x ∷ items) u h = (
    Names-slot pages pages' p x.1 (λ a k. u a (omega arith)) h.0,
    Names-frame pages pages' p items (λ a k. u a (omega arith)) h.1,
  )

  module _ (pages pages' : ℕ → Page K) where
    abbrev pub KeepsView : (ℕ → ℕ) → Type 0
    KeepsView own = (a : ℕ) → 1 ≤ own a → view K (pages' a) ≡ view K (pages a)

    -- The parents stay, but for the pages that the second count has.
    abbrev pub KeepsParent : (ℕ → ℕ) → (ℕ → ℕ) → Type 0
    KeepsParent own heads =
        (a : ℕ) → 1 ≤ own a → heads a ≡ 0 → parent_in K (pages' a) ≡ parent_in K (pages a)

    abbrev Framed : ℕ → Type 0
    Framed height =
        (low high : Option (Key K)) (p : ℕ) (own : ℕ → ℕ) (items : List (Item K))
        → ((a : ℕ) → own a ≤ 1)
        → KeepsView own
        → KeepsParent own (one p)
        → Tree K pages height low high p own items
        → Tree K pages' height low high p own items

    slot-frame :
        (height : ℕ)
        → Framed height
        → (low high : Option (Key K)) (slot : Slot) (own : ℕ → ℕ) (items : List (Item K))
        → ((a : ℕ) → own a ≤ 1)
        → KeepsView own
        → KeepsParent own (root_of K slot)
        → OnChild K (λ c. Tree K pages height low high c own items) slot
        → OnChild K (λ c. Tree K pages' height low high c own items) slot
    slot-frame height f low high (child c) own items le v u t = f low high c own items le v u t
    slot-frame height f low high (rid r) own items le v u t = t

    Kids-frame_with :
        (height : ℕ)
        → Framed height
        → (low high : Option (Key K)) (x : Item K) (rest : List (Item K)) (own : ℕ → ℕ)
          (items : List (Item K))
        → ((a : ℕ) → own a ≤ 1)
        → KeepsView own
        → KeepsParent own (roots K (x ∷ rest))
        → Kids K (Tree K pages height) low high x rest own items
        → Kids K (Tree K pages' height) low high x rest own items
    Kids-frame_with height f low high x [] own items le v u t =
        slot-frame height f low high x.1 own items le v (λ a h k. u a h (omega (arith, k))) t
    Kids-frame_with height f low high x (y ∷ rest) own items le v u
          (first, later, left, right, owns, is, t, ts) =
        (
          first,
          later,
          left,
          right,
          owns,
          is,
          slot-frame height f low (some y.0) x.1 first left (λ a. omega (arith, owns a, le a))
              (λ a h. v a (omega (arith, owns a)))
              (λ a h k. u a (omega (arith, owns a)) (
                other_roots a h k
                  (Kids-roots pages height (some y.0) high y rest later right ts a)))
              t,
          Kids-frame_with height f (some y.0) high y rest later right
              (λ a. omega (arith, owns a, le a)) (λ a h. v a (omega (arith, owns a)))
              (λ a h k.
                u a (omega (arith, owns a))
                  (first_root a h k (slot-own pages height low (some y.0) x.1 first left t a)))
              ts,
        )
      where
        other_roots :
            (a : ℕ)
            → 1 ≤ first a
            → root_of K x.1 a ≡ 0
            → roots K (y ∷ rest) a ≤ later a
            → roots K (x ∷ y ∷ rest) a ≡ 0
        other_roots a h k le' = omega (arith, owns a, le a)

        first_root :
            (a : ℕ)
            → 1 ≤ later a
            → roots K (y ∷ rest) a ≡ 0
            → root_of K x.1 a ≤ first a
            → roots K (x ∷ y ∷ rest) a ≡ 0
        first_root a h k le' = omega (arith, owns a, le a)

    pub Tree-frame :
        (height : ℕ) (low high : Option (Key K)) (p : ℕ) (own : ℕ → ℕ) (items : List (Item K))
        → ((a : ℕ) → own a ≤ 1)
        → KeepsView own
        → KeepsParent own (one p)
        → Tree K pages height low high p own items
        → Tree K pages' height low high p own items
    Tree-frame zero low high p own items le v u (at, sorted, above, below, owns) =
        (v p (omega (arith, owns p, one_self p)) ∙ at, sorted, above, below, owns)
    Tree-frame (suc height) low high p own items le v u
          (x, rest, kids, at, sorted, above, below, names, owns, ks) =
        (
          x,
          rest,
          kids,
          v p (omega (arith, owns p, one_self p)) ∙ at,
          sorted,
          above,
          below,
          Names-frame pages pages' p (x ∷ rest)
              (λ a k.
                let rooted = Kids-roots pages height low high x rest kids items ks a in
                u a (omega (arith, owns a)) (omega (arith, owns a, le a)))
              names,
          owns,
          Kids-frame_with height (Tree-frame height) low high x rest kids items
              (λ a. omega (arith, owns a, le a)) (λ a h. v a (omega (arith, owns a)))
              (λ a h k. u a (omega (arith, owns a)) (omega (arith, owns a, le a))) ks,
        )

    pub Kids-frame :
        (height : ℕ) (low high : Option (Key K)) (x : Item K) (rest : List (Item K)) (own : ℕ → ℕ)
        (items : List (Item K))
        → ((a : ℕ) → own a ≤ 1)
        → KeepsView own
        → KeepsParent own (roots K (x ∷ rest))
        → Kids K (Tree K pages height) low high x rest own items
        → Kids K (Tree K pages' height) low high x rest own items
    Kids-frame height = Kids-frame_with height (Tree-frame height)

    pub child-frame :
        (height : ℕ) (low high : Option (Key K)) (slot : Slot) (own : ℕ → ℕ) (items : List (Item K))
        → ((a : ℕ) → own a ≤ 1)
        → KeepsView own
        → KeepsParent own (root_of K slot)
        → OnChild K (λ c. Tree K pages height low high c own items) slot
        → OnChild K (λ c. Tree K pages' height low high c own items) slot
    child-frame height = slot-frame height (Tree-frame height)
