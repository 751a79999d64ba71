-- ===== src/Index/FindLeaf.antt =====
-- The way from the root to a leaf ends at the leaf that has the key, if the tree has it.
use miniob4cqu_db_exp.Common.{
  ℕ, zero, suc, ◌+◌, ◌<◌, ◌≡◌, refl, sym, ap, subst, ◌∙◌, Bool, true, false, Rc, Option, none, some,
  List, [], ◌∷◌, ◌++◌, length, ◌==◌, arith,
}
use miniob4cqu_db_exp.Common.Step.{Outcome, done, failed}
use miniob4cqu_db_exp.Index.Page.{IndexKeys, Key, Item, Node, Page, node, Slot, rid, child, Index}
use miniob4cqu_db_exp.Index.Node.{item_at}
use miniob4cqu_db_exp.Index.Wrote.{load-node, get_page-node}
use miniob4cqu_db_exp.Index.Internal
use miniob4cqu_db_exp.Index.Tree.{Sizes, find_leaf_from, find_leaf_internal, find_leaf, child_of}
use miniob4cqu_db_exp.Index.Search.{lower_bound}
use miniob4cqu_db_exp.Index.SearchBounds.{lower_bound-first_not_below}
use miniob4cqu_db_exp.Index.LeafOrder.{IsSorted, slot_of, comparing, IsSorted-IsAscending}
use miniob4cqu_db_exp.Index.Shape.{
  OnChild, IsTree, items_of, All-map, items_of-AtLeast, items_of-Under,
}
use miniob4cqu_db_exp.Index.Select.{
  select, place_of, Apart, slot_of-append_left, slot_of-append_right, select-OnChild,
  child_index-select,
}
use miniob4cqu_db_exp.Index.Leaves.{
  child_leaves, leaves_of, page_items, flatten, flatten-append, flatten-leaves_of,
}
use miniob4cqu_db_exp.Index.Parted.{Parted, Parted-trans, Parted-select, Low, High}
use miniob4cqu_db_exp.Index.Scanner.{rid_min}

module _ (K : IndexKeys) (sizes : Sizes) where
  abbrev pub chosen_in : Key K → List (Item K) → Slot
  chosen_in key [] = rid rid_min
  chosen_in key (x ∷ rest) = (select K key x rest).1

  -- The slot of the child that the way down takes in a page.
  abbrev pub chosen : Key K → Page K → Slot
  chosen key (node n) = chosen_in key n.items
  chosen key _ = rid rid_min

  -- The way down from a page ends at the leaf.
  abbrev pub OnPath : (ℕ → Page K) → Key K → ℕ → ℕ → ℕ → Type 0
  OnPath pages key leaf zero p = leaf ≡ p
  OnPath pages key leaf (suc height) p =
      OnChild K (OnPath pages key leaf height) (chosen key (pages p))

  abbrev pub AtLeaf : Key K → ℕ → (height p : ℕ) → Index K → Type 0
  AtLeaf key fuel height p s =
      (leaf : ℕ) × (n : Node K) × (find_leaf_from K sizes (child_of K sizes key) fuel p s
        ≡ done leaf s)
      × (s.pages leaf ≡ node n)
      × (n.is_leaf ≡ true)
      × IsSorted K n.items
      × Parted K s.pages key (leaves_of K s.pages height p) (leaf ∷ [])
      × OnPath s.pages key leaf height p

  pub lookup_lem :
      (key : Key K) (n : Node K) (x : Item K) (rest : List (Item K))
      → n.items ≡ x ∷ rest
      → IsSorted K rest
      → (Internal.lookup K n key).0
        ≡ Internal.child_index K (x ∷ rest) key ((place_of K key rest).0 + 1)
  unfolding Internal.lookup lower_bound
  lookup_lem key n x rest is sorted =
      rw (is, Internal.lookup)
        (rw nonempty (
          ap (λ (r : ℕ × Bool). Internal.child_index K (x ∷ rest) key (r.0 + 1))
            (lower_bound-first_not_below (comparing K key) rest
              (IsSorted-IsAscending K key rest sorted))))
    where
      nonempty : (length (x ∷ rest) == 0) ≡ false
      nonempty = ground arith

  pub child_of-select :
      (key : Key K) (n : Node K) (x : Item K) (rest : List (Item K)) (c : ℕ) (s : Index K)
      → n.items ≡ x ∷ rest
      → IsSorted K rest
      → (select K key x rest).1 ≡ child c
      → child_of K sizes key n s ≡ done c s
  unfolding child_of item_at
  child_of-select key n x rest c s is sorted to =
      rw (lookup_lem key n x rest is sorted, child_of)
        (rw (is, child_of)
          (rw (child_index-select K key x rest sorted, child_of, item_at) (rw (to, child_of) refl)))

  find_leaf_from-AtLeaf :
      (key : Key K) (fuel height p : ℕ) (low high : Option (Key K)) (s : Index K)
      → height < fuel
      → IsTree K s.pages height low high p
      → AtLeaf key fuel height p s
  unfolding find_leaf_from
  find_leaf_from-AtLeaf key zero height p low high s h t = absurd (omega arith)
  find_leaf_from-AtLeaf key (suc fuel) zero p low high s h (n, at, leaf, sorted, above, below) = (
    p,
    n,
    rw (get_page-node K p n s at, find_leaf_from)
        (rw (load-node K p n s at, find_leaf_from) (rw (leaf, find_leaf_from) refl)),
    at,
    leaf,
    sorted,
    record { before = []; after = []; parts = refl; lower = tt; higher = tt },
    refl,
  )
  find_leaf_from-AtLeaf key (suc fuel) (suc height) p low high s h
        (n, x, rest, at, inner, is, sorted, above, below, children) =
      let (low', high', on) =
        select-OnChild K (IsTree K s.pages height) key low high x rest children in
      by_child (select K key x rest).1 refl low' high' on
        (λ c t. find_leaf_from-AtLeaf key fuel height c low' high' s (omega arith) t)
    where
      parted :
          Parted K s.pages key
            (leaves_of K s.pages (suc height) p)
            (child_leaves K (leaves_of K s.pages height) (select K key x rest).1)
      parted = rw at (
          rw is (
            Parted-select K (IsTree K s.pages height) s.pages (leaves_of K s.pages height)
              (items_of K s.pages height) (flatten-leaves_of K s.pages height)
              (items_of-AtLeast K s.pages height) (items_of-Under K s.pages height) key low high x
              rest sorted children))

      by_child :
          (slot : Slot)
          → (select K key x rest).1 ≡ slot
          → (low' high' : Option (Key K)) → OnChild K (IsTree K s.pages height low' high') slot
          → ((c : ℕ) → IsTree K s.pages height low' high' c → AtLeaf key fuel height c s)
          → AtLeaf key (suc fuel) (suc height) p s
      by_child (rid r) to low' high' on later = elim on [ ]
      by_child (child c) to low' high' on later =
          let (leaf, m, run, here, is_leaf, in_order, same, path) = later c on in
          (
            leaf,
            m,
            rw (get_page-node K p n s at, find_leaf_from)
                (rw (load-node K p n s at, find_leaf_from)
                  (rw (inner, find_leaf_from)
                    (rw (child_of-select key n x rest c s is sorted to, find_leaf_from) run))),
            here,
            is_leaf,
            in_order,
            Parted-trans K s.pages key (leaves_of K s.pages (suc height) p)
                (leaves_of K s.pages height c) (leaf ∷ [])
                (subst
                  (λ l.
                    Parted K s.pages key (leaves_of K s.pages (suc height) p)
                      (child_leaves K (leaves_of K s.pages height) l))
                  to parted)
                same,
            subst (OnChild K (OnPath s.pages key leaf height))
                (sym (ap (chosen key) at ∙ ap (chosen_in key) is ∙ to)) path,
          )

  pub find_leaf-AtLeaf :
      (fuel height root : ℕ) (key : Key K) (s : Index K)
      → s.root_page ≡ some root
      → IsTree K s.pages height none none root
      → height < fuel
      → (leaf : ℕ) × (n : Node K) × (find_leaf K sizes fuel key s ≡ done leaf s)
        × (s.pages leaf ≡ node n)
        × (n.is_leaf ≡ true)
        × IsSorted K n.items
        × Parted K s.pages key (leaves_of K s.pages height root) (leaf ∷ [])
        × OnPath s.pages key leaf height root
  unfolding find_leaf find_leaf_internal
  find_leaf-AtLeaf fuel height root key s is tree enough =
      let (leaf, n, run, at, is_leaf, sorted, parts, path) =
        find_leaf_from-AtLeaf key fuel height root none none s enough tree in
      (leaf, n, ap from_root is ∙ run, at, is_leaf, sorted, parts, path)
    where
      from_root : Option ℕ → Outcome (Index K) ℕ
      from_root none = failed Rc.empty s
      from_root (some p) = find_leaf_from K sizes (child_of K sizes key) fuel p s

  pub Parted-items_of :
      (pages : ℕ → Page K) (height root leaf : ℕ) (key : Key K) (n : Node K)
      → pages leaf ≡ node n
      → (parts : Parted K pages key (leaves_of K pages height root) (leaf ∷ []))
      → items_of K pages height root
        ≡ flatten K pages parts.before ++ (n.items ++ flatten K pages parts.after)
  Parted-items_of pages height root leaf key n at parts =
      sym (flatten-leaves_of K pages height root)
      ∙ ap (flatten K pages) parts.parts
      ∙ flatten-append K pages parts.before (leaf ∷ parts.after)
      ∙ ap
          (λ page.
            flatten K pages parts.before ++ (page_items K page ++ flatten K pages parts.after))
          at

  pub Parted-slot_of :
      (pages : ℕ → Page K) (height root leaf : ℕ) (key : Key K) (n : Node K)
      → pages leaf ≡ node n
      → Parted K pages key (leaves_of K pages height root) (leaf ∷ [])
      → slot_of K key (items_of K pages height root) ≡ slot_of K key n.items
  Parted-slot_of pages height root leaf key n at parts =
      ap (slot_of K key) (Parted-items_of pages height root leaf key n at parts)
      ∙ slot_of-append_right K key (flatten K pages parts.before)
          (n.items ++ flatten K pages parts.after)
          (All-map K (Low K key) (Apart K key) (flatten K pages parts.before)
            (λ x h k. ground (arith, h, k)) parts.lower)
      ∙ slot_of-append_left K key n.items (flatten K pages parts.after) (
          All-map K (High K key) (Apart K key) (flatten K pages parts.after)
            (λ x h k. ground (arith, h, k)) parts.higher)

  -- On a B+ tree `find_leaf` ends with a leaf, for fuel that exceeds the height of the tree, and
  -- changes nothing. The items of the leaf are in order, and the slot that it has for the key is the
  -- slot for the key among the items of all leaves: one is there if and only if the other is.
  pub find_leaf_lem :
      (fuel height root : ℕ) (key : Key K) (s : Index K)
      → s.root_page ≡ some root
      → IsTree K s.pages height none none root
      → height < fuel
      → (leaf : ℕ) × (n : Node K) × (find_leaf K sizes fuel key s ≡ done leaf s)
        × (s.pages leaf ≡ node n)
        × (n.is_leaf ≡ true)
        × IsSorted K n.items
        × (slot_of K key (items_of K s.pages height root) ≡ slot_of K key n.items)
  find_leaf_lem fuel height root key s is tree enough =
      let (leaf, n, run, at, is_leaf, sorted, parts, path) =
        find_leaf-AtLeaf fuel height root key s is tree enough in
      (leaf, n, run, at, is_leaf, sorted, Parted-slot_of s.pages height root leaf key n at parts)
