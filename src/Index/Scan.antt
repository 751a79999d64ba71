-- ===== src/Index/Scan.antt =====
-- A scan of a B+ tree, and `get_entry`, give the records of the range in the order of their keys.
use miniob4cqu_db_exp.Common.{
  ℕ, ◌<◌, ◌≡◌, refl, sym, ap, ◌∙◌, subst, true, false, Option, none, some, List, [], ◌∷◌, ◌++◌, All,
  drop, length, length-append, arith, if◌then◌else◌, KeyOrder,
}
use miniob4cqu_db_exp.Common.Step.{Step, Outcome, done, failed, crash, and_then, return, ◌>>=◌}
use miniob4cqu_db_exp.Index.Page.{IndexKeys, Key, Node, node, Rid, Index}
use miniob4cqu_db_exp.Index.Tree.{Sizes, find_leaf}
use miniob4cqu_db_exp.Index.LeafOrder.{IsSorted, position}
use miniob4cqu_db_exp.Index.Shape.{IsTree, items_of}
use miniob4cqu_db_exp.Index.Leaves.{leaves_of, page_items, flatten}
use miniob4cqu_db_exp.Index.Parted.{Parted}
use miniob4cqu_db_exp.Index.FindLeaf.{find_leaf-AtLeaf, Parted-items_of}
use miniob4cqu_db_exp.Index.Chain.{IsRid, IsLeaf}
use miniob4cqu_db_exp.Index.NextEntry.{node_of}
use miniob4cqu_db_exp.Index.Range.{rids_in, rids_in-Low, rids_in-position, items_of-IsSorted}
use miniob4cqu_db_exp.Index.SortedParts.{IsSorted-right}
use miniob4cqu_db_exp.Index.Scanner.{
  Scanner, keys_of, rid_min, rid_max, touch_end, fetch_all, first_at, first_place, open_keys,
  open_scanner, get_entry,
}
use miniob4cqu_db_exp.Index.Opened.{IsChained, IsChained-from, opened_at}
use miniob4cqu_db_exp.Index.Places.{first_at-placed, length-drop_le, leaf-Places}

module _ (K : IndexKeys) where
  and_then_assoc :
      {S A B C : Type 0} (r : Outcome S A) (f : A → Step S B) (g : B → Step S C)
      → and_then (and_then r f) g ≡ and_then r (λ a s. and_then (f a s) g)
  and_then_assoc (done a s) f g = refl
  and_then_assoc (failed rc s) f g = refl
  and_then_assoc crash f g = refl

  abbrev pub scan_keys : Sizes → ℕ → ℕ → Key K → Option (Key K) → Step (Index K) (List Rid)
  scan_keys sizes fuel rounds left right = do
    scanner ← open_keys K sizes fuel (some left) right
    fetch_all K rounds scanner

  scan_keys-opened :
      (sizes : Sizes) (fuel rounds leaf : ℕ) (left : Key K) (right : Option (Key K))
      (place : Option (ℕ × ℕ)) (s : Index K)
      → find_leaf K sizes fuel left s ≡ done leaf s
      → first_at K leaf left s ≡ done place s
      → scan_keys sizes fuel rounds left right s ≡ opened_at K rounds right place s
  unfolding open_keys first_place
  scan_keys-opened sizes fuel rounds leaf left right place s run at =
      rw (run, open_keys) (rw (at, open_keys) (by_place place))
    where
      by_place :
          (place : Option (ℕ × ℕ))
          → and_then
              ((elim place as (λ x. Step (Index K) (Scanner K)) [
                | none ↦
                    return (record {
                      current = none;
                      index = 0;
                      right_key = none;
                      first_emitted = false;
                    })
                | some at ↦ do
                  over ← touch_end K right at.0 at.1
                  return (record {
                    current = if over then none else some at.0;
                    index = at.1;
                    right_key = right;
                    first_emitted = false;
                  })
              ])
                s)
              (λ scanner. fetch_all K rounds scanner)
            ≡ opened_at K rounds right place s
      by_place none = refl
      by_place (some at) =
          and_then_assoc (touch_end K right at.0 at.1 s)
            (λ over. return (record {
              current = if over then none else some at.0;
              index = at.1;
              right_key = right;
              first_emitted = false;
            }))
            (λ scanner. fetch_all K rounds scanner)

  -- A scan of a B+ tree whose leaves name one another in order. Opened with a left key and perhaps
  -- a right key, for fuel that exceeds the height of the tree and the number of its items, a scanner
  -- gives the records of exactly the items that are not below the left key and not above the right
  -- one, in the order of the keys, and changes nothing.
  pub scan_keys-rids_in :
      (sizes : Sizes) (fuel rounds height root : ℕ) (left : Key K) (right : Option (Key K))
      (s : Index K)
      → s.root_page ≡ some root
      → IsTree K s.pages height none none root
      → IsChained K s.pages (leaves_of K s.pages height root)
      → height < fuel
      → length (items_of K s.pages height root) < rounds
      → scan_keys sizes fuel rounds left right s
        ≡ done (rids_in K left right (items_of K s.pages height root)) s
  scan_keys-rids_in sizes fuel rounds height root left right s is tree chained enough room =
      let (leaf, n, run, at, is_leaf, sorted, parts, path) =
        find_leaf-AtLeaf K sizes fuel height root left s is tree enough in
      from_leaf leaf n run at sorted parts
    where
      from_leaf :
          (leaf : ℕ) (n : Node K)
          → find_leaf K sizes fuel left s ≡ done leaf s
          → s.pages leaf ≡ node n
          → IsSorted K n.items
          → Parted K s.pages left (leaves_of K s.pages height root) (leaf ∷ [])
          → scan_keys sizes fuel rounds left right s
            ≡ done (rids_in K left right (items_of K s.pages height root)) s
      from_leaf leaf n run at sorted parts =
          let items = Parted-items_of K sizes s.pages height root leaf left n at parts in
          let chain =
            IsChained-from K s.pages parts.before leaf parts.after
              (subst (IsChained K s.pages) parts.parts chained) in
          let (m, leaf_m) = node_of K s.pages leaf parts.after chain in
          let same : m.items ≡ n.items = ap (page_items K) (sym leaf_m.0 ∙ at) in
          let is_leaf : IsLeaf K s.pages leaf n =
            (at, subst (λ l. 0 < length l) same leaf_m.1, subst (All (IsRid K)) same leaf_m.2) in
          let (place, to, result) =
            leaf-Places K rounds leaf (position K left n.items) n parts.after right s is_leaf chain
              (ground (
                arith,
                room,
                ap length items,
                length-append (flatten K s.pages parts.before)
                    (n.items ++ flatten K s.pages parts.after),
                length-append n.items (flatten K s.pages parts.after),
                length-append (drop (position K left n.items) n.items)
                    (flatten K s.pages parts.after),
                length-drop_le K (position K left n.items) n.items,
              )) in
          scan_keys-opened sizes fuel rounds leaf left right place s run
            (first_at-placed K leaf left n s at sorted ∙ to)
          ∙ result
          ∙ ap (λ l. done l s)
              (sym (
                ap (rids_in K left right) items
                ∙ rids_in-Low K left right (flatten K s.pages parts.before)
                    (n.items ++ flatten K s.pages parts.after) parts.lower
                ∙ rids_in-position K left right n.items (flatten K s.pages parts.after)
                    (IsSorted-right K (flatten K s.pages parts.before)
                      (n.items ++ flatten K s.pages parts.after)
                      (subst (IsSorted K) items
                        (items_of-IsSorted K s.pages height none none root tree)))
                    parts.higher))

module _ (A : KeyOrder) (zero_key : A.Key) (sizes : Sizes) where
  open_both :
      (fuel : ℕ) (key : A.Key) (s : Index (keys_of A zero_key))
      → open_scanner A zero_key sizes fuel (some (key, true)) (some (key, true)) s
        ≡ open_keys (keys_of A zero_key) sizes fuel (some (key, rid_min)) (some (key, rid_max)) s
  unfolding open_scanner
  open_both fuel key s = rw (A.compare-self key, open_scanner) refl

  -- `get_entry` on a B+ tree whose leaves name one another in order, over an attribute of another
  -- type than text, and for fuel that exceeds the height of the tree and the number of its items. It
  -- changes nothing and gives, in order, the records of exactly the items from the key with the least
  -- record number up to the key with the greatest one.
  pub get_entry-rids_in :
      (fuel rounds height root : ℕ) (key : A.Key) (s : Index (keys_of A zero_key))
      → s.root_page ≡ some root
      → IsTree (keys_of A zero_key) s.pages height none none root
      → IsChained (keys_of A zero_key) s.pages (leaves_of (keys_of A zero_key) s.pages height root)
      → height < fuel
      → length (items_of (keys_of A zero_key) s.pages height root) < rounds
      → get_entry A zero_key sizes fuel rounds key s
        ≡ done
            (rids_in
              (keys_of A zero_key)
              (key, rid_min)
              (some (key, rid_max))
              (items_of (keys_of A zero_key) s.pages height root))
            s
  unfolding get_entry open_scanner
  get_entry-rids_in fuel rounds height root key s is tree chained enough room =
      ap (λ r. and_then r (λ scanner. fetch_all (keys_of A zero_key) rounds scanner))
        (open_both fuel key s)
      ∙ scan_keys-rids_in (keys_of A zero_key) sizes fuel rounds height root (key, rid_min)
          (some (key, rid_max)) s is tree chained enough room
