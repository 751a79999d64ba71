-- ===== src/Index/Whole/Tests.antt =====
-- An index whose only leaf is full: an insertion splits it and makes a new root.
use miniob4cqu_db_exp.Common.{
  ℕ, ◌+◌, ◌≤◌, ◌≡◌, refl, Rc, some, none, List, [], ◌∷◌, ◌⊎◌, length, arith,
}
use miniob4cqu_db_exp.Common.Step.{done, failed}
use miniob4cqu_db_exp.Index.Keys.{compare_index_keys}
use miniob4cqu_db_exp.Index.Page.{Slot, rid, Item, Key, Index}
use miniob4cqu_db_exp.Index.LeafOrder.{slot_of, updated}
use miniob4cqu_db_exp.Index.Tree.{insert_entry}
use miniob4cqu_db_exp.Index.Tests.{place, keys, key, entry, three, with_free}
use miniob4cqu_db_exp.Index.Whole.{one}
use miniob4cqu_db_exp.Index.Whole.Create.{IsIndex}
use miniob4cqu_db_exp.Index.Whole.Grow.{insert_entry-IsIndex}

program : Unit {0}
unfolding insert_entry compare_index_keys
program = tt

abbrev before : Index keys
before = with_free (3 ∷ 4 ∷ [])

abbrev items : List (Item keys)
items = entry 10 ∷ entry 20 ∷ entry 30 ∷ []

before-IsIndex : IsIndex keys three before (some 0) items
unfolding program
before-IsIndex = record {
  root = 2;
  own = one 2;
  at_root = refl;
  tree = (
    refl,
    ((refl, (refl, tt)), ((refl, tt), (tt, tt))),
    (tt, (tt, (tt, tt))),
    (tt, (tt, (tt, tt))),
    λ a. refl,
  );
  top = refl;
  distinct = λ a. ground arith;
  old = some 2;
  head = refl;
  head_apart = refl;
}

insert_entry-IsIndex_example :
    ((slot : Slot) × (slot_of keys (key 25) items ≡ some slot)
      × (insert_entry keys three 5 (key 25) (place 25) before
          ≡ failed Rc.record_duplicate_key before))
    ⊎ ((slot_of keys (key 25) items ≡ none)
        × ((s : Index keys) × (height : ℕ) × (items' : List (Item keys)) × (insert_entry keys three
                5
                (key 25)
                (place 25)
                before
              ≡ done tt s)
            × IsIndex keys three s (some height) items'
            × ((k : Key keys)
                → slot_of keys k items'
                  ≡ updated keys (key 25) (some (rid (place 25))) (λ k. slot_of keys k items) k)
            × (height ≤ 1)
            × (2 ≤ length s.free + 2)))
insert_entry-IsIndex_example =
    insert_entry-IsIndex keys three 5 (some 0) (key 25) (place 25) before items before-IsIndex
      (omega arith) (omega arith) (omega arith) (omega arith)
