-- ===== src/Index/Tests.antt =====
-- An index on dates, which are numbers, with three entries in a leaf and three children in a node.
use Prim.Native.Nat.{compare}
use miniob4cqu_db_exp.Common.{
  KeyOrder, ap, ◌∙◌, length, ℕ, ◌≤◌, ◌<◌, ◌≡◌, refl, true, false, Rc, none, some, List, [], ◌∷◌,
  take, drop, sym, subst, List, ◌⊎◌, inl, inr, ◌==◌, ==_iff, if◌then◌else◌, Bool-cases, arith,
}
use miniob4cqu_db_exp.Common.Step.{Outcome, done, failed, crash}
use miniob4cqu_db_exp.Index.Keys.{compare_index_keys}
use miniob4cqu_db_exp.Index.Search.{lower_bound}
use miniob4cqu_db_exp.Index.SearchBounds.{lower_bound-first_not_below}
use miniob4cqu_db_exp.Index.Page.{
  Slot, IndexKeys, Key, Item, Node, Page, unused, header, node, Rid, rid, child, Index,
}
use miniob4cqu_db_exp.Index.LeafOrder.{IsSorted, IsSorted-IsAscending, comparing, slot_of, updated}
use miniob4cqu_db_exp.Index.Shape.{IsTree, items_of}
use miniob4cqu_db_exp.Index.FindLeaf.{find_leaf_lem}
use miniob4cqu_db_exp.Index.Scanner.{keys_of, get_entry}
use miniob4cqu_db_exp.Index.Leaves.{leaves_of, page_items}
use miniob4cqu_db_exp.Index.Opened.{IsChained}
use miniob4cqu_db_exp.Index.Scan.{scan_keys, scan_keys-rids_in, get_entry-rids_in}
use miniob4cqu_db_exp.Index.Insert.{insert_entry-updated}
use miniob4cqu_db_exp.Index.Node.{size}
use miniob4cqu_db_exp.Index.Tree.{find_leaf, Sizes, insert_entry}
use miniob4cqu_db_exp.Index.Delete.{delete_entry}
use miniob4cqu_db_exp.Index.Replay.{Stored, redo, rollback}
use miniob4cqu_db_exp.Index.Redo.{inserts, redo-operation}
use miniob4cqu_db_exp.Index.Rollback.{rollback-removal}

abbrev pub dates : KeyOrder
dates = record {
  Key = ℕ;
  compare_keys = compare;
  compare-self = λ a. ground arith;
  compare-eq = λ a b h. ground (arith, h);
  compare-gt = λ a b h. ground (arith, h);
  compare-lt = λ a b h. ground (arith, h);
  compare-trans = λ a b c h k. ground (arith, h, k);
}

abbrev pub place : ℕ → Rid
place n = record { page_num = 1; slot_num = n }

abbrev pub keys : IndexKeys
keys = keys_of dates 0

abbrev pub key : ℕ → Key keys
key n = (n, place n)

abbrev pub entry : ℕ → Item keys
entry n = (key n, rid (place n))

abbrev pub three : Sizes
three = record { internal_max_size = 3; leaf_max_size = 3 }

-- A leaf that is full, in page 2.
abbrev pub full_pages : ℕ → Page keys
full_pages p =
    if p == 1
    then header (some 2)
    else if p == 2
    then node (record {
      is_leaf = true;
      parent = none;
      next_brother = none;
      items = entry 10 ∷ entry 20 ∷ entry 30 ∷ [];
    })
    else unused

abbrev pub with_free : List ℕ → Index keys
with_free free = record {
  pages = full_pages;
  free = free;
  root_page = some 2;
  log = [];
  disposed = [];
}

program : Unit {0}
unfolding insert_entry delete_entry get_entry compare_index_keys lower_bound
program = tt

abbrev state_of : Outcome (Index keys) (Unit {0}) → Index keys
state_of (done a s) = s
state_of (failed rc s) = s
state_of crash = with_free []

abbrev grown : Index keys
grown = state_of (insert_entry keys three 5 (key 25) (place 25) (with_free (3 ∷ 4 ∷ [])))

new_leaf :
    grown.pages 3
    ≡ node (record {
      is_leaf = true;
      parent = some 4;
      next_brother = none;
      items = entry 20 ∷ entry 25 ∷ entry 30 ∷ [];
    })
unfolding program
new_leaf = refl

-- The root page cannot be allocated.
abbrev stuck : Index keys
stuck = state_of (insert_entry keys three 5 (key 25) (place 25) (with_free (3 ∷ [])))

no_root :
    insert_entry keys three 5 (key 25) (place 25) (with_free (3 ∷ []))
    ≡ failed Rc.bufferpool_nobuf stuck
unfolding program
no_root = refl

-- Of the pages only the old leaf, page 2, was written before the crash.
abbrev flushed : ℕ → Stored keys
flushed p =
    if p == 2
    then record { page = grown.pages 2; lsn = 9 }
    else record { page = full_pages p; lsn = 0 }

redo-operation_example :
    (store : ℕ → Stored keys) × (redo keys (λ p. true) 9 grown.log flushed
      ≡ some (Rc.success, store))
    × ((p : ℕ) → (store p).page ≡ grown.pages p)
unfolding program
redo-operation_example =
    redo-operation keys three 5 (inserts (key 25) (place 25)) (with_free (3 ∷ 4 ∷ [])) grown
      (λ p. true) 9 flushed refl refl (λ p. refl) written
  where
    same : ℕ → Type 0
    same p = (flushed p).page ≡ grown.pages p

    written :
        (p : ℕ)
        → (((flushed p).lsn < 9) × ((flushed p).page ≡ full_pages p))
          ⊎ ((9 ≤ (flushed p).lsn) × ((flushed p).page ≡ grown.pages p))
    written p = elim (Bool-cases (p == 2)) [
      | inl here ↦ inr (rw here (omega arith), subst same (sym ((==_iff p 2).0 here)) refl)
      | inr other ↦ inl (rw other (omega arith), rw other refl)
    ]

rollback-removal_example : rollback keys stuck ≡ none
unfolding program
rollback-removal_example =
    rollback-removal keys stuck (take 3 stuck.log) (drop 4 stuck.log) 2 1 (entry 20) (entry 30 ∷ [])
      refl

abbrev leaf : Node keys
leaf = record {
  is_leaf = true;
  parent = none;
  next_brother = none;
  items = entry 10 ∷ entry 30 ∷ [];
}

abbrev with_room : Index keys
with_room = record {
  pages = λ p. if p == 2 then node leaf else unused;
  free = [];
  root_page = some 2;
  log = [];
  disposed = [];
}

leaf-IsSorted : IsSorted keys leaf.items
unfolding program
leaf-IsSorted = ((refl, tt), (tt, tt))

lower_bound-first_not_below_example : lower_bound (comparing keys (key 30)) leaf.items ≡ (1, true)
unfolding program
lower_bound-first_not_below_example =
    lower_bound-first_not_below (comparing keys (key 30)) leaf.items
      (IsSorted-IsAscending keys (key 30) leaf.items leaf-IsSorted)

-- The tree after the split: page 4 is the root of two leaves.
grown-IsTree : IsTree keys grown.pages 1 none none 4
unfolding program
grown-IsTree = (
  record {
    is_leaf = false;
    parent = none;
    next_brother = none;
    items = (keys.zero_key, child 2) ∷ (key 20, child 3) ∷ [];
  },
  (keys.zero_key, child 2),
  (key 20, child 3) ∷ [],
  refl,
  refl,
  refl,
  (tt, tt),
  (tt, tt),
  (tt, tt),
  (
    (
      record { is_leaf = true; parent = some 4; next_brother = some 3; items = entry 10 ∷ [] },
      refl,
      refl,
      (tt, tt),
      (tt, tt),
      (refl, tt),
    ),
    (
      record {
        is_leaf = true;
        parent = some 4;
        next_brother = none;
        items = entry 20 ∷ entry 25 ∷ entry 30 ∷ [];
      },
      refl,
      refl,
      ((refl, (refl, tt)), ((refl, tt), (tt, tt))),
      ((λ h. ground (arith, h)), ((λ h. ground (arith, h)), ((λ h. ground (arith, h)), tt))),
      (tt, (tt, (tt, tt))),
    ),
  ),
)

find_leaf_lem_example :
    (leaf : ℕ) × (n : Node keys) × (find_leaf keys three 2 (key 25) grown ≡ done leaf grown)
    × (grown.pages leaf ≡ node n)
    × (n.is_leaf ≡ true)
    × IsSorted keys n.items
    × (slot_of keys (key 25) (items_of keys grown.pages 1 4) ≡ slot_of keys (key 25) n.items)
unfolding program
find_leaf_lem_example =
    find_leaf_lem keys three 2 1 4 (key 25) grown refl grown-IsTree (omega arith)

grown-IsChained : IsChained keys grown.pages (leaves_of keys grown.pages 1 4)
unfolding program
grown-IsChained = (
  record { is_leaf = true; parent = some 4; next_brother = some 3; items = entry 10 ∷ [] },
  (refl, omega arith, (tt, tt)),
  refl,
  (
    record {
      is_leaf = true;
      parent = some 4;
      next_brother = none;
      items = entry 20 ∷ entry 25 ∷ entry 30 ∷ [];
    },
    (refl, omega arith, (tt, (tt, (tt, tt)))),
    refl,
  ),
)

get_entry-rids_in_example : get_entry dates 0 three 2 5 25 grown ≡ done (place 25 ∷ []) grown
unfolding program
get_entry-rids_in_example =
    get_entry-rids_in dates 0 three 2 5 1 4 25 grown refl grown-IsTree grown-IsChained (omega arith)
      (omega arith)

scan_keys-rids_in_example :
    scan_keys keys three 2 5 (key 15) (some (key 25)) grown ≡ done (place 20 ∷ place 25 ∷ []) grown
unfolding program
scan_keys-rids_in_example =
    scan_keys-rids_in keys three 2 5 1 4 (key 15) (some (key 25)) grown refl grown-IsTree
      grown-IsChained (omega arith) (omega arith)

with_room-IsTree : IsTree keys with_room.pages 0 none none 2
with_room-IsTree = (leaf, refl, refl, leaf-IsSorted, (tt, (tt, tt)), (tt, (tt, tt)))

abbrev page_in : Outcome (Index keys) ℕ → ℕ
page_in (done p s) = p
page_in (failed rc s) = 0
page_in crash = 0

has_room :
    (p : ℕ) (n : Node keys)
    → find_leaf keys three 1 (key 20) with_room ≡ done p with_room
    → with_room.pages p ≡ node n
    → size keys n < 3
unfolding program
has_room p n run at =
    subst (λ l. length l < 3)
      (ap (page_items keys) (ap (λ o. with_room.pages (page_in o)) run ∙ at)) (omega arith)

insert_entry-updated_example :
    ((slot : Slot) × (slot_of keys (key 20) (items_of keys with_room.pages 0 2) ≡ some slot)
      × (insert_entry keys three 1 (key 20) (place 20) with_room
          ≡ failed Rc.record_duplicate_key with_room))
    ⊎ ((slot_of keys (key 20) (items_of keys with_room.pages 0 2) ≡ none)
        × (s : Index keys) × (insert_entry keys three 1 (key 20) (place 20) with_room ≡ done tt s)
        × (s.root_page ≡ some 2)
        × IsTree keys s.pages 0 none none 2
        × (leaves_of keys s.pages 0 2 ≡ leaves_of keys with_room.pages 0 2)
        × ((k : Key keys)
            → slot_of keys k (items_of keys s.pages 0 2)
              ≡ updated keys
                  (key 20)
                  (some (rid (place 20)))
                  (λ k. slot_of keys k (items_of keys with_room.pages 0 2))
                  k))
insert_entry-updated_example =
    insert_entry-updated keys three 1 0 2 (key 20) (place 20) with_room refl with_room-IsTree
      (tt, tt) (omega arith) has_room
