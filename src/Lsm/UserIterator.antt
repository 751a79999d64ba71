-- ===== src/Lsm/UserIterator.antt =====
-- ObUserIterator (oblsm/ob_user_iterator.cpp) over an internal iterator, which is the list of the
-- entries from its position on. A user iterator is the internal one at the entry that it shows; at
-- the end it is not valid.
use Prim.Native.Nat.{Ordering}
use mathlib.Core.Option
use miniob4cqu_db_exp.Common.{
  ℕ, zero, suc, Bool, true, false, Option, none, some, List, [], ◌∷◌, leb,
}
use miniob4cqu_db_exp.Lsm.Keys.{KeyOrder, Entry}

module _ (O : KeyOrder) where
  open O use {Key, compare_keys}

  -- compare(user_key, *skip) <= 0, if there is something to skip
  unfoldable pub skips : Option Key → Key → Bool
  skips none k = false
  skips (some s) k = elim (compare_keys k s) [ Ordering.gt ↦ false | _ ↦ true ]

  -- `find_next_user_entry(skipping, skip)`; `none` is `skipping == false`, and the string is not
  -- read then.
  unfoldable pub find_next_user_entry : ℕ → Option Key → List (Entry O) → List (Entry O)
  unfolding skips
  find_next_user_entry seq skip [] = []
  find_next_user_entry seq skip (e ∷ iter) = elim (leb e.sequence seq) [
    | false ↦ find_next_user_entry seq skip iter
    | true ↦ elim e.value [
      | [] ↦ find_next_user_entry seq (some e.user_key) iter
      | _ ∷ _ ↦ elim (skips skip e.user_key) [
        | true ↦ find_next_user_entry seq skip iter
        | false ↦ e ∷ iter
      ]
    ]
  ]

  unfoldable pub seek_to_first : ℕ → List (Entry O) → List (Entry O)
  unfolding find_next_user_entry
  seek_to_first seq entries = find_next_user_entry seq none entries

  -- `next`, where the iterator is valid.
  unfoldable pub next : ℕ → List (Entry O) → List (Entry O)
  unfolding find_next_user_entry
  next seq [] = []
  next seq (e ∷ iter) = find_next_user_entry seq (some e.user_key) iter

  -- What a user sees who calls `next` until the iterator is not valid; `none` means that the fuel
  -- ran out.
  unfoldable pub scan_entries : ℕ → ℕ → List (Entry O) → Option (List (Entry O))
  unfolding next
  scan_entries fuel seq [] = some []
  scan_entries zero seq (e ∷ iter) = none
  scan_entries (suc fuel) seq (e ∷ iter) =
      Option.map (◌∷◌ e) (scan_entries fuel seq (next seq (e ∷ iter)))
