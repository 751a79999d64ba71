-- ===== src/Index/Whole/Grow.antt =====
-- `insert_entry` on a whole index: any leaf and any node above it may be split.
use miniob4cqu_db_exp.Common.{
  ℕ, suc, ◌+◌, ◌-◌, ◌≤◌, ◌≡◌, sym, ap, ◌∙◌, subst, Rc, Option, none, some, List, ◌⊎◌, inl, inr,
  length, arith,
}
use miniob4cqu_db_exp.Common.Step.{Outcome, done, failed}
use miniob4cqu_db_exp.Index.Page.{IndexKeys, Key, Item, Slot, rid, Rid, Index}
use miniob4cqu_db_exp.Index.LeafOrder.{slot_of, updated, found-slot_of}
use miniob4cqu_db_exp.Index.LeafInsert.{inserted, slot_of-inserted}
use miniob4cqu_db_exp.Index.Tree.{Sizes, first_index_page, insert_entry, insert_entry_into_parent}
use miniob4cqu_db_exp.Index.Whole.Result.{TreeResult}
use miniob4cqu_db_exp.Index.Whole.Insertion.{insert_from, Tree-inserts}
use miniob4cqu_db_exp.Index.Whole.Ascend.{some_free}
use miniob4cqu_db_exp.Index.Whole.Create.{
  levels, IsIndex, Inserted, insert_entry-from, first-Inserted,
}
use miniob4cqu_db_exp.Index.Whole.Holds.{Holds, Holds-IsSorted, insert_entry_into_parent-Holds}

module _ (K : IndexKeys) (sizes : Sizes) where
  -- A later insertion.
  module _ (fuel : ℕ) (key : Key K) (r : Rid) (s : Index K) (height : ℕ) (items : List (Item K))
      (h : Holds K sizes s height items) (deep : suc height ≤ fuel)
      (enough : suc (suc height) ≤ length s.free) where
    abbrev Outcomes : Outcome (Index K) (Unit {0}) → Type 0
    Outcomes o =
        ((slot : Slot) × (slot_of K key items ≡ some slot) × (o ≡ failed Rc.record_duplicate_key s))
        ⊎ ((slot_of K key items ≡ none) × Inserted K sizes key r s (suc height) items o)

    maps :
        (items' : List (Item K))
        → items' ≡ inserted K key (rid r) items
        → slot_of K key items ≡ none
        → (k : Key K) → slot_of K k items' ≡ updated K key (some (rid r)) (λ k. slot_of K k items) k
    maps items' is lacks k =
        elim (found-slot_of K key items (Holds-IsSorted K sizes s height items h)) [
          | inl (found, slot, has) ↦ absurd (cc (sym lacks ∙ has))
          | inr (absent, none_there) ↦
              ap (slot_of K k) is
              ∙ slot_of-inserted K key k (rid r) items (Holds-IsSorted K sizes s height items h)
                  absent
        ]

    finished :
        (o : Outcome (Index K) (Unit {0}))
        → TreeResult K sizes key r fuel height none none h.root s h.own items o
        → Outcomes o
    finished o (inl dup) = inl dup
    finished o (inr (lacks, inl (s', own', items', change, runs, (tree, name)))) = inr (
      lacks,
      (
        s',
        height,
        items',
        runs,
        record {
          root = h.root;
          own = own';
          at_root = change.root ∙ h.at_root;
          tree = tree;
          top = name ∙ h.top;
          distinct = λ a. omega (arith, change.counted a, h.distinct a);
          old = h.old;
          head = change.other first_index_page h.head_apart ∙ h.head;
          head_apart = omega (arith, change.counted first_index_page, h.head_apart);
        },
        maps items' change.is lacks,
        omega arith,
        omega (arith, change.room),
      ),
    )
    finished o (inr (lacks, inr (s1, own', items', new, m, change, (runs, pair)))) =
        let (s2, run, holds, room) =
          insert_entry_into_parent-Holds K sizes key r height s s1 items items' own' new m h change
            pair enough (fuel - suc height) in
        inr (
          lacks,
          (
            s2,
            suc height,
            items',
            runs ∙ ap (λ f. insert_entry_into_parent K sizes f h.root new m s1) (omega arith) ∙ run,
            holds,
            maps items' change.is lacks,
            omega arith,
            room,
          ),
        )

  -- Insertion into any index, empty or a B+ tree in which each page names its parent. The fuel exceeds
  -- the height, more pages are free than the index has levels, and a leaf and an internal node may
  -- hold two items at least. A key that the index has is refused as a duplicate and nothing is
  -- changed. Else the insertion succeeds, through all splits that it takes up to a new root, and
  -- leaves such an index again: its map from keys to slots is the old one with the record under the
  -- key, it has at most one level more, and at most one page for each level and one more was taken.
  pub insert_entry-IsIndex :
      (fuel : ℕ) (height : Option ℕ) (key : Key K) (r : Rid) (s : Index K) (items : List (Item K))
      → IsIndex K sizes s height items
      → levels height ≤ fuel
      → suc (levels height) ≤ length s.free
      → 2 ≤ sizes.leaf_max_size
      → 2 ≤ sizes.internal_max_size
      → ((slot : Slot) × (slot_of K key items ≡ some slot)
          × (insert_entry K sizes fuel key r s ≡ failed Rc.record_duplicate_key s))
        ⊎ ((slot_of K key items ≡ none)
            × ((s' : Index K) × (height' : ℕ) × (items' : List (Item K)) × (insert_entry K sizes
                    fuel key r s
                  ≡ done tt s')
                × IsIndex K sizes s' (some height') items'
                × ((k : Key K)
                    → slot_of K k items' ≡ updated K key (some (rid r)) (λ k. slot_of K k items) k)
                × (height' ≤ levels height)
                × (length s.free ≤ length s'.free + suc (levels height))))
  insert_entry-IsIndex fuel none key r s items h deep enough leaves inner =
      let (p, free, fresh) = some_free s.free enough in
      inr (ap (slot_of K key) h.no_items, first-Inserted K sizes fuel key r s items h p free fresh)
  insert_entry-IsIndex fuel (some height) key r s items h deep enough leaves inner =
      subst (Outcomes fuel key r s height items h deep enough)
        (sym (insert_entry-from K sizes fuel h.root key r s h.at_root))
        (finished fuel key r s height items h deep enough
          (insert_from K sizes key r fuel fuel h.root s)
          (Tree-inserts K sizes key r fuel height fuel s none none h.root h.own items deep
            (omega arith) leaves inner (omega arith) h.tree tt tt h.distinct))
