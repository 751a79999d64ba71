-- ===== src/Lsm/Get.antt =====
-- ObUserIterator::seek (oblsm/ob_user_iterator.cpp): a seek of the internal iterator and the search
-- for the next user entry; and the test of the entry found, as ObLsmImpl::get writes it.
use Prim.Native.Nat.{Ordering}
use miniob4cqu_db_exp.Common.{
  ℕ, Bool, true, false, Rc, Option, none, some, List, [], ◌∷◌, if◌then◌else◌,
}
use miniob4cqu_db_exp.Lsm.Keys.{KeyOrder, Entry, compare_internal}
use miniob4cqu_db_exp.Lsm.UserIterator.{find_next_user_entry}

module _ (O : KeyOrder) where
  open O use {Key, compare_keys}

  unfoldable pub drop_while : (Entry O → Bool) → List (Entry O) → List (Entry O)
  drop_while p [] = []
  drop_while p (e ∷ iter) = let rest = drop_while p iter in if p e then rest else e ∷ iter

  abbrev pub is_lt : Ordering → Bool
  is_lt Ordering.lt = true
  is_lt _ = false

  -- The lookup key of a user key at a sequence number.
  abbrev pub lookup_key : Key → ℕ → Entry O
  lookup_key target seq = record { user_key = target; sequence = seq; value = [] }

  -- `seek` of the memtable's iterator goes to the first key that is not before the lookup key.
  abbrev pub before_lookup : Key → ℕ → Entry O → Bool
  before_lookup target seq e = is_lt (compare_internal O e (lookup_key target seq))

  -- BlockIterator::seek goes to the first key whose user key is not before the target.
  abbrev pub before_target : Key → Entry O → Bool
  before_target target e = is_lt (compare_keys e.user_key target)

  -- `iter->seek(key)` of the user iterator, whose internal seek drops the entries of `p`.
  unfoldable pub seek : (Entry O → Bool) → ℕ → List (Entry O) → List (Entry O)
  unfolding drop_while
  seek p seq entries = find_next_user_entry O seq none (drop_while p entries)

  -- What a reader makes of the entry that the iterator shows: the lines of `get` behind its seek.
  -- `get` itself does not reach them, since it takes a lock that it holds (mu_, in new_iterator).
  unfoldable pub get_value : Key → List (Entry O) → Rc × Option (List ℕ)
  get_value key [] = (Rc.not_exist, none)
  get_value key (e ∷ iter) = elim (compare_keys e.user_key key) [
    | Ordering.eq ↦ elim e.value [
      | [] ↦ (Rc.not_exist, none)
      | b ∷ bytes ↦ (Rc.success, some (b ∷ bytes))
    ]
    | _ ↦ (Rc.not_exist, none)
  ]
