-- ===== src/Index/Insert.antt =====
-- Insertion into a B+ tree whose leaf for the key has room.
use miniob4cqu_db_exp.Common.{
  ℕ, ◌<◌, ◌≡◌, sym, ap, ◌∙◌, true, Rc, Option, none, some, [], ◌∷◌, ◌⊎◌, inl, inr,
}
use miniob4cqu_db_exp.Common.Step.{Outcome, done, failed, and_then}
use miniob4cqu_db_exp.Index.Page.{IndexKeys, Key, Node, node, Slot, rid, Rid, Index}
use miniob4cqu_db_exp.Index.Node.{size, with_items}
use miniob4cqu_db_exp.Index.Tree.{
  Sizes, find_leaf, insert_entry, insert_entry_into_leaf_node, create_new_tree,
}
use miniob4cqu_db_exp.Index.LeafOrder.{slot_of, updated}
use miniob4cqu_db_exp.Index.LeafStep.{Rewrites, insert_entry_into_leaf_node_lem}
use miniob4cqu_db_exp.Index.Shape.{IsTree, items_of}
use miniob4cqu_db_exp.Index.Leaves.{leaves_of, flatten}
use miniob4cqu_db_exp.Index.Parted.{Parted}
use miniob4cqu_db_exp.Index.FindLeaf.{find_leaf-AtLeaf, Parted-slot_of, Parted-items_of}
use miniob4cqu_db_exp.Index.Regrown.{OnPath-IsTree}
use miniob4cqu_db_exp.Index.Rewritten.{
  leaves_of-same, IsDistinct, items_of-rewritten, updated-around,
}

module _ (K : IndexKeys) (sizes : Sizes) where
  pub insert_entry-found :
      (fuel root leaf : ℕ) (key : Key K) (r : Rid) (s : Index K)
      → s.root_page ≡ some root
      → find_leaf K sizes fuel key s ≡ done leaf s
      → insert_entry K sizes fuel key r s ≡ insert_entry_into_leaf_node K sizes fuel leaf key r s
  unfolding insert_entry
  insert_entry-found fuel root leaf key r s is run =
      ap from_root is
      ∙ ap (λ o. and_then o (λ p. insert_entry_into_leaf_node K sizes fuel p key r)) run
    where
      from_root : Option ℕ → Outcome (Index K) (Unit {0})
      from_root none = create_new_tree K sizes key r s
      from_root (some p) =
          and_then (find_leaf K sizes fuel key s)
            (λ p. insert_entry_into_leaf_node K sizes fuel p key r)

  -- Insertion into a B+ tree with no page twice among its leaves, for fuel that exceeds the height,
  -- if the leaf that `find_leaf` finds for the key has room. A key that the tree has is refused as a
  -- duplicate and nothing is changed. Else the insertion succeeds and leaves a B+ tree with the same
  -- root and the same leaves, whose map from keys to slots, over all leaves, is the old one with the
  -- record under the key.
  pub insert_entry-updated :
      (fuel height root : ℕ) (key : Key K) (r : Rid) (s : Index K)
      → s.root_page ≡ some root
      → IsTree K s.pages height none none root
      → IsDistinct (leaves_of K s.pages height root)
      → height < fuel
      → ((leaf : ℕ) (n : Node K)
          → find_leaf K sizes fuel key s ≡ done leaf s
          → s.pages leaf ≡ node n
          → size K n < sizes.leaf_max_size)
      → ((slot : Slot) × (slot_of K key (items_of K s.pages height root) ≡ some slot)
          × (insert_entry K sizes fuel key r s ≡ failed Rc.record_duplicate_key s))
        ⊎ ((slot_of K key (items_of K s.pages height root) ≡ none)
            × (s' : Index K) × (insert_entry K sizes fuel key r s ≡ done tt s')
            × (s'.root_page ≡ some root)
            × IsTree K s'.pages height none none root
            × (leaves_of K s'.pages height root ≡ leaves_of K s.pages height root)
            × ((k : Key K)
                → slot_of K k (items_of K s'.pages height root)
                  ≡ updated K key
                      (some (rid r))
                      (λ k. slot_of K k (items_of K s.pages height root))
                      k))
  insert_entry-updated fuel height root key r s is tree distinct enough room =
      let (leaf, n, run, at, is_leaf, sorted, parts, path) =
        find_leaf-AtLeaf K sizes fuel height root key s is tree enough in
      let same = Parted-slot_of K sizes s.pages height root leaf key n at parts in
      let found = insert_entry-found fuel root leaf key r s is run in
      elim (insert_entry_into_leaf_node_lem K sizes fuel leaf key r n s at sorted
        (room leaf n run at)) [
          | inl (slot, has, fails) ↦ inl (slot, same ∙ has, found ∙ fails)
          | inr (has_none, s', runs, change) ↦ inr (
            same ∙ has_none,
            s',
            found ∙ runs,
            change.root ∙ is,
            OnPath-IsTree K sizes s.pages s'.pages leaf n (with_items K change.items n) at is_leaf
                change.there key (rid r) change.here is_leaf change.sorted change.lower change.upper
                height none none root tree path distinct tt tt,
            leaves_of-same K s.pages s'.pages leaf n (with_items K change.items n) at is_leaf
                change.there height none none root tree,
            λ k. maps leaf n at is_leaf parts s' change k,
          )
        ]
    where
      maps :
          (leaf : ℕ) (n : Node K)
          → s.pages leaf ≡ node n
          → n.is_leaf ≡ true
          → (parts : Parted K s.pages key (leaves_of K s.pages height root) (leaf ∷ []))
          → (s' : Index K) → Rewrites K sizes leaf n key (rid r) s s'
          → (k : Key K)
          → slot_of K k (items_of K s'.pages height root)
            ≡ updated K key (some (rid r)) (λ k. slot_of K k (items_of K s.pages height root)) k
      maps leaf n at is_leaf parts s' change k =
          ap (slot_of K k) (
            items_of-rewritten K s.pages s'.pages leaf n (with_items K change.items n) at is_leaf
              change.there height none none root key tree distinct change.here parts)
          ∙ updated-around K key k (some (rid r)) (flatten K s.pages parts.before) n.items
              change.items (flatten K s.pages parts.after) parts.lower parts.higher change.maps
          ∙ ap (λ l. updated K key (some (rid r)) (λ k. slot_of K k l) k)
              (sym (Parted-items_of K sizes s.pages height root leaf key n at parts))
