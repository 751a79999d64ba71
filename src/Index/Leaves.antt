-- ===== src/Index/Leaves.antt =====
-- The leaves of a B+ tree from left to right, and those before and after the leaf for a key.
use mathlib.Core.List.{append_assoc}
use miniob4cqu_db_exp.Common.{ℕ, zero, suc, ◌≡◌, refl, sym, ap, ◌∙◌, List, [], ◌∷◌, ◌++◌}
use miniob4cqu_db_exp.Index.Page.{
  IndexKeys, Item, Node, Page, unused, header, node, Slot, rid, child,
}
use miniob4cqu_db_exp.Index.Shape.{child_items, all_items, items_in, items_of}

module _ (K : IndexKeys) where
  open K.order use {compare_keys, compare-self, compare-eq, compare-gt, compare-lt, compare-trans}

  abbrev pub child_leaves : (ℕ → List ℕ) → Slot → List ℕ
  child_leaves leaves (child c) = leaves c
  child_leaves leaves (rid r) = []

  abbrev pub all_leaves : (ℕ → List ℕ) → List (Item K) → List ℕ
  all_leaves leaves [] = []
  all_leaves leaves (x ∷ rest) = child_leaves leaves x.1 ++ all_leaves leaves rest

  abbrev pub leaves_in : Page K → (Node K → List ℕ) → List ℕ
  leaves_in (node n) f = f n
  leaves_in _ f = []

  abbrev pub leaves_of : (ℕ → Page K) → ℕ → ℕ → List ℕ
  leaves_of pages zero p = p ∷ []
  leaves_of pages (suc height) p =
      leaves_in (pages p) (λ n. all_leaves (leaves_of pages height) n.items)

  abbrev pub page_items : Page K → List (Item K)
  page_items page = items_in K page (λ n. n.items)

  abbrev pub flatten : (ℕ → Page K) → List ℕ → List (Item K)
  flatten pages [] = []
  flatten pages (p ∷ ps) = page_items (pages p) ++ flatten pages ps

  pub flatten-append :
      (pages : ℕ → Page K) (ps qs : List ℕ)
      → flatten pages (ps ++ qs) ≡ flatten pages ps ++ flatten pages qs
  flatten-append pages [] qs = refl
  flatten-append pages (p ∷ ps) qs =
      ap (λ l. page_items (pages p) ++ l) (flatten-append pages ps qs)
      ∙ sym (append_assoc (page_items (pages p)) (flatten pages ps) (flatten pages qs))

  module _ (pages : ℕ → Page K) (leaves : ℕ → List ℕ) (items : ℕ → List (Item K)) where
    flatten-child_leaves :
        ((c : ℕ) → flatten pages (leaves c) ≡ items c)
        → (slot : Slot) → flatten pages (child_leaves leaves slot) ≡ child_items K items slot
    flatten-child_leaves f (child c) = f c
    flatten-child_leaves f (rid r) = refl

    pub flatten-all_leaves :
        ((c : ℕ) → flatten pages (leaves c) ≡ items c)
        → (xs : List (Item K)) → flatten pages (all_leaves leaves xs) ≡ all_items K items xs
    flatten-all_leaves f [] = refl
    flatten-all_leaves f (x ∷ xs) =
        flatten-append pages (child_leaves leaves x.1) (all_leaves leaves xs)
        ∙ ap (λ l. l ++ flatten pages (all_leaves leaves xs)) (flatten-child_leaves f x.1)
        ∙ ap (λ l. child_items K items x.1 ++ l) (flatten-all_leaves f xs)

  append-nil : (xs : List (Item K)) → xs ++ [] ≡ xs
  append-nil [] = refl
  append-nil (x ∷ xs) = ap (λ l. x ∷ l) (append-nil xs)

  pub flatten-leaves_of :
      (pages : ℕ → Page K) (height p : ℕ)
      → flatten pages (leaves_of pages height p) ≡ items_of K pages height p
  flatten-leaves_of pages zero p = append-nil (page_items (pages p))
  flatten-leaves_of pages (suc height) p = by_page (flatten-leaves_of pages height) (pages p)
    where
      by_page :
          ((c : ℕ) → flatten pages (leaves_of pages height c) ≡ items_of K pages height c)
          → (page : Page K)
          → flatten pages (leaves_in page (λ n. all_leaves (leaves_of pages height) n.items))
            ≡ items_in K page (λ n. all_items K (items_of K pages height) n.items)
      by_page same unused = refl
      by_page same (header root) = refl
      by_page same (node n) =
          flatten-all_leaves pages (leaves_of pages height) (items_of K pages height) same n.items
