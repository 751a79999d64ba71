-- ===== src/Index/Chain.antt =====
-- What a scanner gives over the chain of the leaves.
use Prim.Native.Nat.{Ordering}
use miniob4cqu_db_exp.Common.{
  ℕ, zero, suc, ◌+◌, ◌≤◌, ◌<◌, ◌≡◌, refl, ap, ◌∙◌, Bool, true, false, Option, none, some, List, [],
  ◌∷◌, All, length, drop, get_elem?, if◌then◌else◌, arith,
}
use miniob4cqu_db_exp.Common.Step.{done}
use miniob4cqu_db_exp.Index.Page.{IndexKeys, Key, Item, Node, Page, node, rid, child, Rid, Index}
use miniob4cqu_db_exp.Index.Node.{get_page, load, item_at, key_at}
use miniob4cqu_db_exp.Index.Scanner.{rid_min, touch_end, fetch_item}

module _ (K : IndexKeys) where
  abbrev pub IsRid : Item K → Type 0
  IsRid (key, rid r) = Unit
  IsRid (key, child p) = ⊥

  abbrev pub rid_in : Item K → Rid
  rid_in (key, rid r) = r
  rid_in (key, child p) = rid_min

  -- A leaf with an item at least, and records behind its keys.
  abbrev pub IsLeaf : (ℕ → Page K) → ℕ → Node K → Type 0
  IsLeaf pages p n = (pages p ≡ node n) × (0 < length n.items) × All IsRid n.items

  -- Each leaf names the next one.
  abbrev pub IsChain : (ℕ → Page K) → ℕ → List ℕ → Type 0
  IsChain pages p [] = (n : Node K) × IsLeaf pages p n × (n.next_brother ≡ none)
  IsChain pages p (q ∷ rest) =
      (n : Node K) × IsLeaf pages p n × (n.next_brother ≡ some q) × IsChain pages q rest

  abbrev pub past : Option (Key K) → Item K → Bool
  past none x = false
  past (some right) x = elim (K.order.compare_keys x.0 right) [ Ordering.gt ↦ true | _ ↦ false ]

  -- The records up to the right end.
  abbrev pub rids_to : Option (Key K) → List (Item K) → List Rid
  rids_to right [] = []
  rids_to right (x ∷ items) = if past right x then [] else rid_in x ∷ rids_to right items

  abbrev pub first_rid : Option (Key K) → List (Item K) → Option Rid
  first_rid right [] = none
  first_rid right (x ∷ items) = if past right x then none else some (rid_in x)

  pub drop-get :
      (items : List (Item K)) (i : ℕ) (x : Item K)
      → get_elem? items i ≡ some x
      → drop i items ≡ x ∷ drop (i + 1) items
  drop-get [] i x at = absurd (ground (arith, at))
  drop-get (y ∷ items) zero x at = ap (λ z. z ∷ items) {x = y} {y = x} (cc)
  drop-get (y ∷ items) (suc i) x at =
      drop-get items i x at
      ∙ ap (λ j. x ∷ drop j (y ∷ items)) {x = suc (i + 1)} {y = suc i + 1} (omega arith)

  pub drop-past : (items : List (Item K)) (i : ℕ) → length items ≤ i → drop i items ≡ []
  drop-past [] zero le = refl
  drop-past [] (suc i) le = refl
  drop-past (x ∷ items) zero le = absurd (omega arith)
  drop-past (x ∷ items) (suc i) le = drop-past items i (omega arith)

  pub get-in :
      (items : List (Item K)) (i : ℕ)
      → i < length items
      → All IsRid items
      → (x : Item K) × (get_elem? items i ≡ some x) × IsRid x
  get-in [] i less h = absurd (omega arith)
  get-in (x ∷ items) zero less h = (x, refl, h.0)
  get-in (x ∷ items) (suc i) less h = get-in items i (omega arith) h.1

  pub load-node : (p : ℕ) (n : Node K) (s : Index K) → s.pages p ≡ node n → load K p s ≡ done n s
  unfolding load
  load-node p n s h = rw (h, load) refl

  pub get_page-node :
      (p : ℕ) (n : Node K) (s : Index K) → s.pages p ≡ node n → get_page K p s ≡ done tt s
  unfolding get_page
  get_page-node p n s h = rw (h, get_page) refl

  pub touch_end-past :
      (right : Option (Key K)) (p i : ℕ) (n : Node K) (x : Item K) (s : Index K)
      → s.pages p ≡ node n
      → get_elem? n.items i ≡ some x
      → touch_end K right p i s ≡ done (past right x) s
  unfolding touch_end key_at item_at
  touch_end-past none p i n x s at here = refl
  touch_end-past (some right) p i n x s at here =
      rw (load-node p n s at, key_at) (rw (here, item_at) refl)

  pub fetch_item-rid :
      (p i : ℕ) (n : Node K) (x : Item K) (s : Index K)
      → s.pages p ≡ node n
      → get_elem? n.items i ≡ some x
      → IsRid x
      → fetch_item K p i s ≡ done (rid_in x) s
  unfolding fetch_item item_at
  fetch_item-rid p i n (key, rid r) s at here h =
      rw (load-node p n s at, fetch_item) (rw (here, item_at) refl)
  fetch_item-rid p i n (key, child c) s at here h = elim h [ ]
