-- ===== src/Lsm/Tests.antt =====
-- Concrete tables with byte strings as keys.
use mathlib.Core.List.{Permᴰ}
use miniob4cqu_db_exp.Common.{Rc, none, ℕ, ◌≡◌, refl, some, List, [], ◌∷◌, arith}
use miniob4cqu_db_exp.Lsm.Keys.{Entry, compare_internal, IsSorted}
use miniob4cqu_db_exp.Lsm.ByteKeys.{byte_keys, compare_bytes}
use miniob4cqu_db_exp.Lsm.UserIterator.{
  skips, find_next_user_entry, seek_to_first, next, scan_entries,
}
use miniob4cqu_db_exp.Lsm.Visible.{filter, newest}
use miniob4cqu_db_exp.Lsm.Snapshot.{scan_entries-filter}
use miniob4cqu_db_exp.Lsm.Get.{before_lookup, before_target, seek, get_value, drop_while}
use miniob4cqu_db_exp.Lsm.Merge.{smaller, find_smallest, advance, merge_from, merge}
use miniob4cqu_db_exp.Lsm.EntryOrder.{entries_of, InOrder}
use miniob4cqu_db_exp.Lsm.MergeOrder.{merge-InOrder}

abbrev put : ℕ → ℕ → ℕ → Entry byte_keys
put key sequence byte = record { user_key = key ∷ []; sequence = sequence; value = byte ∷ [] }

abbrev deleted : ℕ → ℕ → Entry byte_keys
deleted key sequence = record { user_key = key ∷ []; sequence = sequence; value = [] }

-- Key 7 was put at 1 and at 4, key 8 was put at 2 and deleted at 3.
abbrev table : List (Entry byte_keys)
table = put 7 4 72 ∷ put 7 1 71 ∷ deleted 8 3 ∷ put 8 2 81 ∷ []

table-IsSorted : IsSorted byte_keys table
unfolding compare_internal compare_bytes
table-IsSorted = ((refl, (refl, (refl, tt))), ((refl, (refl, tt)), ((refl, tt), (tt, tt))))

at_3 : scan_entries byte_keys 4 3 (seek_to_first byte_keys 3 table) ≡ some (put 7 1 71 ∷ [])
unfolding scan_entries seek_to_first find_next_user_entry next skips compare_bytes
at_3 = refl

at_2 :
    scan_entries byte_keys 4 2 (seek_to_first byte_keys 2 table)
    ≡ some (put 7 1 71 ∷ put 8 2 81 ∷ [])
unfolding scan_entries seek_to_first find_next_user_entry next skips compare_bytes
at_2 = refl

scan_entries-filter_example :
    scan_entries byte_keys 4 4 (seek_to_first byte_keys 4 table)
    ≡ some (filter (newest byte_keys 4 table) table)
scan_entries-filter_example = scan_entries-filter byte_keys 4 4 table table-IsSorted (omega arith)

abbrev children : List (List (Entry byte_keys))
children = (put 7 1 71 ∷ put 8 2 81 ∷ []) ∷ (put 7 4 72 ∷ deleted 8 3 ∷ []) ∷ []

merged : merge byte_keys 4 children ≡ some table
unfolding merge merge_from find_smallest smaller advance compare_internal compare_bytes
merged = refl

merge-InOrder_example :
    (out : List (Entry byte_keys)) × (merge byte_keys 4 children ≡ some out)
    × Permᴰ out (entries_of byte_keys children)
    × InOrder byte_keys out
unfolding compare_internal compare_bytes
merge-InOrder_example =
    merge-InOrder byte_keys 4 children ((((refl, tt), (tt, tt)), (((refl, tt), (tt, tt)), tt)))
      (omega arith)

-- At 3, key 7 has the value of 1 and key 8 is deleted.
key_7 :
    get_value byte_keys (7 ∷ []) (seek byte_keys (before_lookup byte_keys (7 ∷ []) 3) 3 table)
    ≡ (Rc.success, some (71 ∷ []))
unfolding seek get_value drop_while find_next_user_entry skips compare_internal compare_bytes
key_7 = refl

key_8 :
    get_value byte_keys (8 ∷ []) (seek byte_keys (before_target byte_keys (8 ∷ [])) 3 table)
    ≡ (Rc.not_exist, none)
unfolding seek get_value drop_while find_next_user_entry skips compare_internal compare_bytes
key_8 = refl
