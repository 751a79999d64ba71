-- ===== src/Index/Scanner.antt =====
-- BplusTreeScanner and `get_entry` (bplus_tree.cpp). A scanner is a value that its methods return;
-- the end of a scan, RECORD_EOF, is `none`.
use Prim.Native.Nat.{Ordering}
use miniob4cqu_db_exp.Common.{
  ℕ, zero, suc, ◌+◌, Bool, true, false, Rc, Option, none, some, List, [], ◌∷◌, ltb, if◌then◌else◌,
  KeyOrder,
}
use miniob4cqu_db_exp.Common.Step.{Step, Outcome, done, failed, crash, ◌>>=◌, ◌>>◌, return, fail}
use miniob4cqu_db_exp.Index.Keys.{KeyComparator}
use miniob4cqu_db_exp.Index.Page.{IndexKeys, Key, Rid, rid, Slot, child, Index}
use miniob4cqu_db_exp.Index.Node.{get_page, load, size, item_at, key_at}
use miniob4cqu_db_exp.Index.Leaf
use miniob4cqu_db_exp.Index.Tree.{Sizes, find_leaf, left_most_page}

abbrev pub rid_min : Rid
rid_min = record { page_num = 0; slot_num = 0 }

abbrev pub rid_max : Rid
rid_max = record { page_num = 2147483647; slot_num = 2147483647 }

abbrev pub keys_of : (A : KeyOrder) → A.Key → IndexKeys
keys_of A zero_key = record { order = KeyComparator A; zero_key = (zero_key, rid_min) }

-- `current` is the page of current_frame_, `index` is iter_index_.
pub record Scanner (K : IndexKeys) : Type 0 where
  pub current : Option ℕ
  pub index : ℕ
  pub right_key : Option (Key K)
  pub first_emitted : Bool

module _ (K : IndexKeys) where
  unfoldable pub touch_end : Option (Key K) → ℕ → ℕ → Step (Index K) Bool
  unfolding key_at
  touch_end none p index = return false
  touch_end (some right) p index = do
    this_key ← key_at K p index
    return (elim (K.order.compare_keys this_key right) [ Ordering.gt ↦ true | _ ↦ false ])

  abbrev pub rid_of : Slot → Step (Index K) Rid
  rid_of (rid r) s = done r s
  rid_of (child p) s = crash

  unfoldable pub fetch_item : ℕ → ℕ → Step (Index K) Rid
  unfolding load item_at
  fetch_item p index = do n ← load K p; x ← item_at K n.items index; rid_of x.1

  -- From an index in a page on, over the next pages; the fuel is the number of pages that are left.
  unfoldable pub next_from : ℕ → ℕ → ℕ → Scanner K → Step (Index K) (Option Rid × Scanner K)
  unfolding get_page load touch_end fetch_item
  next_from zero p index scanner = λ s. crash
  next_from (suc fuel) p index scanner = do
    n ← load K p
    let here = record scanner { current = some p; index = index }
    elim (ltb index (size K n)) [
      | true ↦ do
        over ← touch_end scanner.right_key p index
        elim over [
          | true ↦ return (none, here)
          | false ↦ do r ← fetch_item p index; return (some r, here)
        ]
      | false ↦ elim n.next_brother [
        | none ↦ return (none, here)
        | some next ↦ do get_page K next; next_from fuel next 0 scanner
      ]
    ]

  unfoldable pub next_entry : ℕ → Scanner K → Step (Index K) (Option Rid × Scanner K)
  unfolding fetch_item next_from
  next_entry fuel scanner = elim scanner.current [
    | none ↦ return (none, scanner)
    | some p ↦ elim scanner.first_emitted [
      | false ↦ do
        r ← fetch_item p scanner.index
        return (some r, record scanner { first_emitted = true })
      | true ↦ next_from fuel p (scanner.index + 1) scanner
    ]
  ]

  -- The loop of `get_entry`.
  unfoldable pub fetch_all : ℕ → Scanner K → Step (Index K) (List Rid)
  unfolding next_entry
  fetch_all zero scanner = λ s. crash
  fetch_all (suc fuel) scanner = do
    next ← next_entry (suc fuel) scanner
    elim next.0 [ none ↦ return [] | some r ↦ do rids ← fetch_all fuel next.1; return (r ∷ rids) ]

  abbrev unless_empty : Rc → Index K → Outcome (Index K) (Option ℕ)
  unless_empty Rc.empty s = done none s
  unless_empty rc s = failed rc s

  -- An empty tree ends the scan.
  abbrev pub none_if_empty : Outcome (Index K) ℕ → Outcome (Index K) (Option ℕ)
  none_if_empty (done p s) = done (some p) s
  none_if_empty (failed rc s) = unless_empty rc s
  none_if_empty crash = crash

  -- The page and the index of the first item that is not below the key.
  unfoldable pub first_at : ℕ → Key K → Step (Index K) (Option (ℕ × ℕ))
  unfolding get_page load Leaf.lookup
  first_at p left_key = do
    n ← load K p
    let left_index = (Leaf.lookup K n left_key).0
    elim (ltb left_index (size K n)) [
      | true ↦ return (some (p, left_index))
      | false ↦ elim n.next_brother [
        | none ↦ return none
        | some next ↦ do get_page K next; return (some (next, 0))
      ]
    ]

  unfoldable pub first_place : Sizes → ℕ → Option (Key K) → Step (Index K) (Option (ℕ × ℕ))
  unfolding find_leaf left_most_page first_at
  first_place sizes fuel none = do
    leaf ← λ s. none_if_empty (left_most_page K sizes fuel s)
    elim leaf [ none ↦ return none | some p ↦ return (some (p, 0)) ]
  first_place sizes fuel (some left_key) = do
    leaf ← λ s. none_if_empty (find_leaf K sizes fuel left_key s)
    elim leaf [ none ↦ return none | some p ↦ first_at p left_key ]

  -- `open`, from the keys for the two ends on.
  unfoldable pub open_keys :
      Sizes → ℕ → Option (Key K) → Option (Key K) → Step (Index K) (Scanner K)
  unfolding first_place touch_end
  open_keys sizes fuel left_key right_key = do
    place ← first_place sizes fuel left_key
    elim place [
      | none ↦
          return (record { current = none; index = 0; right_key = none; first_emitted = false })
      | some at ↦ do
        over ← touch_end right_key at.0 at.1
        return (record {
          current = if over then none else some at.0;
          index = at.1;
          right_key = right_key;
          first_emitted = false;
        })
    ]

-- A scan with the keys of an attribute of another type than text, whose order is `A`: such a key goes
-- into the index as it is. (A text is cut or filled to the length of the attribute first.)
module _ (A : KeyOrder) (zero_key : A.Key) (sizes : Sizes) where
  abbrev pub IndexOf : Type 0
  IndexOf = Index (keys_of A zero_key)

  -- The two ends are no range.
  abbrev pub is_empty_range : Option (A.Key × Bool) → Option (A.Key × Bool) → Bool
  is_empty_range (some left) (some right) = elim (A.compare_keys left.0 right.0) [
    | Ordering.lt ↦ false
    | Ordering.eq ↦ elim left.1 [ true ↦ if right.1 then false else true | false ↦ true ]
    | Ordering.gt ↦ true
  ]
  is_empty_range _ _ = false

  abbrev pub left_key_of : Option (A.Key × Bool) → Option (A.Key × Rid)
  left_key_of none = none
  left_key_of (some (key, inclusive)) = some (key, if inclusive then rid_min else rid_max)

  abbrev pub right_key_of : Option (A.Key × Bool) → Option (A.Key × Rid)
  right_key_of none = none
  right_key_of (some (key, inclusive)) = some (key, if inclusive then rid_max else rid_min)

  -- `open` of a new scanner, each end a key and whether it belongs to the range.
  unfoldable pub open_scanner :
      ℕ
      → Option (A.Key × Bool)
      → Option (A.Key × Bool)
      → Step IndexOf (Scanner (keys_of A zero_key))
  unfolding open_keys
  open_scanner fuel left right = elim (is_empty_range left right) [
    | true ↦ fail Rc.invalid_argument
    | false ↦ open_keys (keys_of A zero_key) sizes fuel (left_key_of left) (right_key_of right)
  ]

  -- `get_entry`; the second fuel is for the entries.
  unfoldable pub get_entry : ℕ → ℕ → A.Key → Step IndexOf (List Rid)
  unfolding open_scanner fetch_all
  get_entry fuel rounds key = do
    scanner ← open_scanner fuel (some (key, true)) (some (key, true))
    fetch_all (keys_of A zero_key) rounds scanner
