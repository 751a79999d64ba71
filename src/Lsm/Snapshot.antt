-- ===== src/Lsm/Snapshot.antt =====
-- A user iterator at a sequence number shows the snapshot of that number.
use miniob4cqu_db_exp.Common.{
  ℕ, zero, suc, ◌≤◌, ◌≡◌, refl, ap, ◌∙◌, inl, inr, ◌&&◌, ◌||◌, Option, none, some, List, [], ◌∷◌,
  length, arith, leb, ltb, Bool-cases,
}
use miniob4cqu_db_exp.Lsm.Keys.{KeyOrder, Entry, IsSorted}
use miniob4cqu_db_exp.Lsm.UserIterator.{skips, find_next_user_entry, seek_to_first, scan_entries}
use miniob4cqu_db_exp.Lsm.Visible.{
  any, filter, everywhere, any_move, is_empty, covers, newest, shown,
}
use miniob4cqu_db_exp.Lsm.Walk.{State, too_new, taken_up, skipped, newest_here}

module _ (O : KeyOrder) where
  open O use {Key, compare_keys}

  at_start : {seq : ℕ} (entries : List (Entry O)) → IsSorted O entries → State O seq none [] entries
  unfolding skips
  at_start {seq} entries sorted = record {
    sorted = sorted;
    behind = everywhere _ (λ e. tt) entries;
    covered = everywhere _ (λ e. refl) entries;
    reached = everywhere _ (λ e k same. absurd (ground (arith, same))) entries;
  }

  pub shown-filter :
      (seq : ℕ) (skip : Option Key) (past l all : List (Entry O))
      → State O seq skip past l
      → ((e : Entry O)
          → any (λ d. covers O seq e d && ltb e.sequence d.sequence) all ≡ (
              any (λ d. covers O seq e d && ltb e.sequence d.sequence) past
              || any (λ d. covers O seq e d && ltb e.sequence d.sequence) l))
      → shown O seq skip l ≡ filter (newest O seq all) l
  shown-filter seq skip past [] all s split = refl
  shown-filter seq skip past (e ∷ l) all s split =
      let here = newest_here O seq skip past e l s all (split e) in
      let move = λ (f : Entry O).
        split f ∙ any_move (λ d. covers O seq f d && ltb f.sequence d.sequence) e past l in
      elim (Bool-cases (leb e.sequence seq)) [
        | inr late ↦
            rw (here, late)
              (shown-filter seq skip (e ∷ past) l all (too_new O seq skip past e l s late) move)
        | inl early ↦ elim (Bool-cases (is_empty O e.value)) [
          | inl deleted ↦
              rw (here, early, deleted)
                (shown-filter seq (some e.user_key) (e ∷ past) l all
                  (taken_up O seq skip past e l s early) move)
          | inr filled ↦ elim (Bool-cases (skips O skip e.user_key)) [
            | inl again ↦
                rw (here, early, filled, again)
                  (shown-filter seq skip (e ∷ past) l all
                    (skipped O seq skip past e l s early again) move)
            | inr fresh ↦
                rw (here, early, filled, fresh)
                  (ap (◌∷◌ e) (
                    shown-filter seq (some e.user_key) (e ∷ past) l all
                      (taken_up O seq skip past e l s early) move))
          ]
        ]
      ]

  scan_entries-shown :
      (fuel seq : ℕ) (skip : Option Key) (l : List (Entry O))
      → length l ≤ fuel
      → scan_entries O fuel seq (find_next_user_entry O seq skip l) ≡ some (shown O seq skip l)
  unfolding scan_entries find_next_user_entry
  scan_entries-shown fuel seq skip [] enough = ground arith
  scan_entries-shown zero seq skip (e ∷ l) enough = absurd (omega arith)
  scan_entries-shown (suc fuel) seq skip (e ∷ l) enough = ground (
    arith,
    scan_entries-shown fuel seq (some e.user_key) l,
    scan_entries-shown (suc fuel) seq (some e.user_key) l,
    scan_entries-shown (suc fuel) seq skip l,
  )

  -- A user iterator at the sequence number `seq`, over internal entries in the order of their keys,
  -- with fuel for all entries: from `seek_to_first` on, it shows, in this order, exactly the entries
  -- of the snapshot, those that have a number not above `seq`, are no deletion, and are the newest O
  -- of such numbers for their user key.
  pub scan_entries-filter :
      (fuel seq : ℕ) (entries : List (Entry O))
      → IsSorted O entries
      → length entries ≤ fuel
      → scan_entries O fuel seq (seek_to_first O seq entries)
        ≡ some (filter (newest O seq entries) entries)
  unfolding seek_to_first
  scan_entries-filter fuel seq entries sorted enough =
      scan_entries-shown fuel seq none entries enough
      ∙ ap some (shown-filter seq none [] entries entries (at_start entries sorted) (λ e. refl))
