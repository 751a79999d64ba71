-- ===== src/Index/Rewritten.antt =====
-- A tree in which one leaf is rewritten: the leaves stay where they are, and the map of all items
-- changes as the map of that leaf does.
use Prim.Native.Nat.{Ordering}
use miniob4cqu_db_exp.Common.{
  ℕ, zero, suc, ◌≡◌, ◌≢◌, refl, sym, ap, ◌∙◌, subst, Bool, true, false, Option, none, some, List,
  [], ◌∷◌, ◌++◌, All, arith,
}
use miniob4cqu_db_exp.Index.Page.{IndexKeys, Key, Item, Node, Page, node, Slot, rid, child}
use miniob4cqu_db_exp.Index.LeafOrder.{slot_of, updated, comparing}
use miniob4cqu_db_exp.Index.Select.{Apart, slot_of-append_left, slot_of-append_right}
use miniob4cqu_db_exp.Index.Shape.{OnChild, Children, IsTree, items_of, All-map}
use miniob4cqu_db_exp.Index.Leaves.{
  child_leaves, all_leaves, leaves_in, leaves_of, page_items, flatten, flatten-append,
  flatten-leaves_of,
}
use miniob4cqu_db_exp.Index.Parted.{Parted, Low, High}

-- No page twice.
abbrev pub IsDistinct : List ℕ → Type 0
IsDistinct [] = Unit
IsDistinct (p ∷ ps) = All (λ q. q ≢ p) ps × IsDistinct ps

pub IsDistinct-around :
    (before : List ℕ) (p : ℕ) (after : List ℕ)
    → IsDistinct (before ++ p ∷ after)
    → All (λ q. q ≢ p) before × All (λ q. q ≢ p) after
IsDistinct-around [] p after d = (tt, d.0)
IsDistinct-around (q ∷ before) p after d =
    let (earlier, later) = IsDistinct-around before p after d.1 in
    ((differs before d.0, earlier), later)
  where
    differs : (before : List ℕ) → All (λ r. r ≢ q) (before ++ p ∷ after) → q ≢ p
    differs [] h same = h.0 (sym same)
    differs (r ∷ before) h same = differs before h.1 same

module _ (K : IndexKeys) where
  open K.order use {compare_keys, compare-self, compare-eq, compare-gt, compare-lt, compare-trans}

  abbrev or_else : Option Slot → Option Slot → Option Slot
  or_else none o = o
  or_else (some slot) o = some slot

  slot_of-or_else :
      (k : Key K) (xs ys : List (Item K))
      → slot_of K k (xs ++ ys) ≡ or_else (slot_of K k xs) (slot_of K k ys)
  slot_of-or_else k [] ys = refl
  slot_of-or_else k (x ∷ xs) ys = by_order (comparing K k x) (slot_of-or_else k xs ys)
    where
      by_order :
          (o : Ordering)
          → slot_of K k (xs ++ ys) ≡ or_else (slot_of K k xs) (slot_of K k ys)
          → elim o [ Ordering.eq ↦ some x.1 | _ ↦ slot_of K k (xs ++ ys) ]
            ≡ or_else (elim o [ Ordering.eq ↦ some x.1 | _ ↦ slot_of K k xs ]) (slot_of K k ys)
      by_order Ordering.lt later = later
      by_order Ordering.eq later = refl
      by_order Ordering.gt later = later

  -- The map of all items changes at the key only.
  pub updated-around :
      (key k : Key K) (slot : Option Slot) (before items items' after : List (Item K))
      → All (Low K key) before
      → All (High K key) after
      → ((k : Key K) → slot_of K k items' ≡ updated K key slot (λ k. slot_of K k items) k)
      → slot_of K k (before ++ (items' ++ after))
        ≡ updated K key slot (λ k. slot_of K k (before ++ (items ++ after))) k
  updated-around key k slot before items items' after low high maps =
      by_order (compare_keys key k) refl
    where
      at_key : slot_of K key (before ++ (items' ++ after)) ≡ slot
      at_key =
          slot_of-append_right K key before (items' ++ after)
            (All-map K (Low K key) (Apart K key) before (λ x h same. ground (arith, h, same)) low)
          ∙ slot_of-append_left K key items' after (
              All-map K (High K key) (Apart K key) after (λ x h same. ground (arith, h, same)) high)
          ∙ maps key
          ∙ ap (λ o. elim o [ Ordering.eq ↦ slot | _ ↦ slot_of K key items ]) (compare-self key)

      elsewhere :
          updated K key slot (λ k. slot_of K k items) k ≡ slot_of K k items
          → slot_of K k (before ++ (items' ++ after)) ≡ slot_of K k (before ++ (items ++ after))
      elsewhere same =
          slot_of-or_else k before (items' ++ after)
          ∙ ap (or_else (slot_of K k before)) (
              slot_of-or_else k items' after
              ∙ ap (λ o. or_else o (slot_of K k after)) (maps k ∙ same)
              ∙ sym (slot_of-or_else k items after))
          ∙ sym (slot_of-or_else k before (items ++ after))

      by_order :
          (o : Ordering)
          → compare_keys key k ≡ o
          → slot_of K k (before ++ (items' ++ after))
            ≡ elim o [ Ordering.eq ↦ slot | _ ↦ slot_of K k (before ++ (items ++ after)) ]
      by_order Ordering.lt o =
          elsewhere (ap (λ o. elim o [ Ordering.eq ↦ slot | _ ↦ slot_of K k items ]) o)
      by_order Ordering.eq o =
          ap (λ k. slot_of K k (before ++ (items' ++ after))) (sym (compare-eq key k o)) ∙ at_key
      by_order Ordering.gt o =
          elsewhere (ap (λ o. elim o [ Ordering.eq ↦ slot | _ ↦ slot_of K k items ]) o)

  is_leaf_page : Page K → Bool
  is_leaf_page (node n) = n.is_leaf
  is_leaf_page _ = false

  module _ (pages pages' : ℕ → Page K) (leaf : ℕ) (n n' : Node K) (at : pages leaf ≡ node n)
      (is_leaf : n.is_leaf ≡ true) (there : (q : ℕ) → q ≢ leaf → pages' q ≡ pages q) where
    pub inner-other : (p : ℕ) (m : Node K) → pages p ≡ node m → m.is_leaf ≡ false → p ≢ leaf
    unfolding is_leaf_page
    inner-other p m here inner same =
        absurd (cc (sym inner ∙ ap is_leaf_page (sym here ∙ ap pages same ∙ at) ∙ is_leaf))

    all_leaves_cong :
        (P : Option (Key K) → Option (Key K) → ℕ → Type 0) (f g : ℕ → List ℕ)
        → ((low high : Option (Key K)) (c : ℕ) → P low high c → f c ≡ g c)
        → (low high : Option (Key K)) (x : Item K) (rest : List (Item K))
        → Children K P low high x rest
        → all_leaves K f (x ∷ rest) ≡ all_leaves K g (x ∷ rest)
    all_leaves_cong P f g e low high x [] h = ap (λ l. l ++ []) (on_child low high x.1 h)
      where
        on_child :
            (low high : Option (Key K)) (slot : Slot)
            → OnChild K (P low high) slot
            → child_leaves K f slot ≡ child_leaves K g slot
        on_child low high (child c) h = e low high c h
        on_child low high (rid r) h = refl
    all_leaves_cong P f g e low high x (y ∷ rest) h =
        ap (λ l. l ++ all_leaves K f (y ∷ rest)) (on_child low (some y.0) x.1 h.0)
        ∙ ap (λ l. child_leaves K g x.1 ++ l) (all_leaves_cong P f g e (some y.0) high y rest h.1)
      where
        on_child :
            (low high : Option (Key K)) (slot : Slot)
            → OnChild K (P low high) slot
            → child_leaves K f slot ≡ child_leaves K g slot
        on_child low high (child c) h = e low high c h
        on_child low high (rid r) h = refl

    pub leaves_of-same :
        (height : ℕ) (low high : Option (Key K)) (p : ℕ)
        → IsTree K pages height low high p
        → leaves_of K pages' height p ≡ leaves_of K pages height p
    leaves_of-same zero low high p t = refl
    leaves_of-same (suc height) low high p
          (m, x, rest, here, inner, is, sorted, above, below, children) =
        ap (λ page. leaves_in K page (λ a. all_leaves K (leaves_of K pages' height) a.items))
          (there p (inner-other p m here inner) ∙ here)
        ∙ ap (all_leaves K (leaves_of K pages' height)) is
        ∙ all_leaves_cong (IsTree K pages height) (leaves_of K pages' height)
            (leaves_of K pages height) (leaves_of-same height) low high x rest children
        ∙ ap (all_leaves K (leaves_of K pages height)) (sym is)
        ∙ ap (λ page. leaves_in K page (λ a. all_leaves K (leaves_of K pages height) a.items))
            (sym here)

    pub flatten-same :
        (ps : List ℕ) → All (λ q. q ≢ leaf) ps → flatten K pages' ps ≡ flatten K pages ps
    flatten-same [] h = refl
    flatten-same (p ∷ ps) h =
        ap (λ page. page_items K page ++ flatten K pages' ps) (there p h.0)
        ∙ ap (λ l. page_items K (pages p) ++ l) (flatten-same ps h.1)

    -- The items of all leaves after the change.
    pub items_of-rewritten :
        (height : ℕ) (low high : Option (Key K)) (root : ℕ) (key : Key K)
        → IsTree K pages height low high root
        → IsDistinct (leaves_of K pages height root)
        → pages' leaf ≡ node n'
        → (parts : Parted K pages key (leaves_of K pages height root) (leaf ∷ []))
        → items_of K pages' height root
          ≡ flatten K pages parts.before ++ (n'.items ++ flatten K pages parts.after)
    items_of-rewritten height low high root key tree distinct here parts =
        let (before, after) =
          IsDistinct-around parts.before leaf parts.after (subst IsDistinct parts.parts distinct) in
        sym (flatten-leaves_of K pages' height root)
        ∙ ap (flatten K pages') (leaves_of-same height low high root tree ∙ parts.parts)
        ∙ flatten-append K pages' parts.before (leaf ∷ parts.after)
        ∙ ap (λ l. l ++ (page_items K (pages' leaf) ++ flatten K pages' parts.after))
            (flatten-same parts.before before)
        ∙ ap (λ l. flatten K pages parts.before ++ (page_items K (pages' leaf) ++ l))
            (flatten-same parts.after after)
        ∙ ap
            (λ page.
              flatten K pages parts.before ++ (page_items K page ++ flatten K pages parts.after))
            here
