-- ===== src/Lsm/Sought.antt =====
-- The versions of keys that `get` passes over, and the first one that it stops at.
use Prim.Native.Nat.{Ordering}
use miniob4cqu_db_exp.Common.{
  ℕ, ◌≡◌, ◌≢◌, refl, ◌⊎◌, inl, inr, Bool, true, false, not, ◌&&◌, Rc, Option, none, some, List, [],
  ◌∷◌, All, arith, leb, if◌then◌else◌, Bool-cases,
}
use miniob4cqu_db_exp.Lsm.Keys.{KeyOrder, Entry, compare_internal, Ahead, IsSorted}
use miniob4cqu_db_exp.Lsm.UserIterator.{skips, find_next_user_entry}
use miniob4cqu_db_exp.Lsm.Visible.{
  any, filter, newest, shown, covers, is_empty, same_key, everywhere,
}
use miniob4cqu_db_exp.Lsm.Walk.{State}
use miniob4cqu_db_exp.Lsm.Get.{get_value}

module _ (O : KeyOrder) where
  open O use {Key, compare_keys}

  -- What `find_next_user_entry` stops at is what is shown first.
  abbrev pub first_of : List (Entry O) → Option (Entry O)
  first_of [] = none
  first_of (e ∷ l) = some e

  pub find_next-shown :
      (seq : ℕ) (skip : Option Key) (l : List (Entry O))
      → first_of (find_next_user_entry O seq skip l) ≡ first_of (shown O seq skip l)
  unfolding find_next_user_entry
  find_next-shown seq skip [] = refl
  find_next-shown seq skip (e ∷ l) =
      ground (arith, find_next-shown seq skip l, find_next-shown seq (some e.user_key) l)

  module _ (seq : ℕ) (target : Key) where
    -- A version that `get` of the target does not look for.
    abbrev pub IsDead : Entry O → Type 0
    IsDead d =
        (compare_keys d.user_key target ≡ Ordering.lt)
        ⊎ ((compare_keys d.user_key target ≡ Ordering.eq) × (leb d.sequence seq ≡ false))

    abbrev pub IsAt : Entry O → Type 0
    IsAt e = compare_keys target e.user_key ≢ Ordering.gt

    dead_covers : (d e : Entry O) → IsDead d → IsAt e → covers O seq e d ≡ false
    dead_covers d e (inl before) at =
        ground
          (arith, before, at, O.compare-eq d.user_key e.user_key, O.compare-lt d.user_key target)
    dead_covers d e (inr (same, late)) at = ground (arith, late)

    IsAt-later : (e f : Entry O) → IsAt e → Ahead O e f → IsAt f
    unfolding compare_internal
    IsAt-later e f at a g = ground (
      arith,
      at,
      g,
      O.compare-eq e.user_key f.user_key,
      O.compare-eq target e.user_key,
      O.compare-trans target e.user_key f.user_key,
    )

    all-IsDead :
        (past : List (Entry O)) (e : Entry O)
        → All IsDead past
        → IsAt e
        → any (covers O seq e) past ≡ false
    all-IsDead [] e d at = refl
    all-IsDead (x ∷ past) e d at = ground (arith, dead_covers x e d.0 at, all-IsDead past e d.1 at)

    pub all-IsAt : (e : Entry O) (l : List (Entry O)) → IsAt e → All (Ahead O e) l → All IsAt l
    all-IsAt e [] at a = tt
    all-IsAt e (f ∷ l) at a = (IsAt-later e f at a.0, all-IsAt e l at a.1)

    covered-IsAt :
        (past l : List (Entry O))
        → All IsDead past
        → All IsAt l
        → All (λ e. any (covers O seq e) past ≡ skips O none e.user_key) l
    unfolding skips
    covered-IsAt past [] d at = tt
    covered-IsAt past (e ∷ l) d at = (all-IsDead past e d at.0, covered-IsAt past l d at.1)

    pub split_State :
        (past l : List (Entry O))
        → IsSorted O l
        → All (λ e. All (λ d. Ahead O d e) past) l
        → All IsDead past
        → All IsAt l
        → State O seq none past l
    split_State past l s b d at = record {
      sorted = s;
      behind = b;
      covered = covered-IsAt past l d at;
      reached = everywhere _ (λ e k same. absurd (ground (arith, same))) l;
    }

    -- The version of the target that the snapshot of `all` has.
    abbrev pub wanted : List (Entry O) → Entry O → Bool
    wanted all e = same_key O e.user_key target && newest O seq all e

    abbrev pub result_of : Option (Entry O) → Rc × Option (List ℕ)
    result_of none = (Rc.not_exist, none)
    result_of (some e) = (Rc.success, some e.value)

    abbrev pub result_at : Option (Entry O) → Rc × Option (List ℕ)
    result_at none = (Rc.not_exist, none)
    result_at (some e) =
        if same_key O e.user_key target && not (is_empty O e.value)
        then (Rc.success, some e.value)
        else (Rc.not_exist, none)

    pub get_value-first :
        (iter : List (Entry O)) → get_value O target iter ≡ result_at (first_of iter)
    unfolding get_value
    get_value-first [] = refl
    get_value-first (e ∷ iter) = by_value e.value refl
      where
        by_value : (v : List ℕ) → e.value ≡ v → get_value O target (e ∷ iter) ≡ result_at (some e)
        by_value [] h = ground (arith, h)
        by_value (b ∷ bytes) h = ground (arith, h)

    past_target :
        (all : List (Entry O)) (e : Entry O) (l : List (Entry O))
        → compare_keys target e.user_key ≡ Ordering.lt
        → All (Ahead O e) l
        → filter (wanted all) l ≡ []
    unfolding compare_internal
    past_target all e [] h a = refl
    past_target all e (f ∷ l) h a =
        let behind : same_key O f.user_key target ≡ false = ground (
          arith,
          h,
          a.0,
          O.compare-eq f.user_key target,
          O.compare-eq e.user_key f.user_key,
          O.compare-trans target e.user_key f.user_key,
          O.compare-self target,
        ) in
        rw behind (past_target all e l h a.1)

    newest_filled :
        (all : List (Entry O)) (e : Entry O)
        → newest O seq all e ≡ true
        → is_empty O e.value ≡ false
    newest_filled all e h = ground (arith, h)

    pub first_wanted :
        (all l : List (Entry O))
        → IsSorted O l
        → All IsAt l
        → result_at (first_of (filter (newest O seq all) l))
          ≡ result_of (first_of (filter (wanted all) l))
    first_wanted all [] s at = refl
    first_wanted all (e ∷ l) s at = elim (Bool-cases (newest O seq all e)) [
      | inr old ↦ rw old (ground (arith, old, first_wanted all l s.1 at.1))
      | inl new ↦ elim (Bool-cases (same_key O e.user_key target)) [
        | inl same ↦ rw (new, same, newest_filled all e new) (ground (arith, new, same))
        | inr other ↦
            let later : compare_keys target e.user_key ≡ Ordering.lt =
              ground (arith, other, at.0, O.compare-eq target e.user_key, O.compare-self target) in
            rw (new, other, past_target all e l later s.0) refl
      ]
    ]

    pub dead_unwanted : (all : List (Entry O)) (e : Entry O) → IsDead e → wanted all e ≡ false
    dead_unwanted all e (inl before) = ground (arith, before)
    dead_unwanted all e (inr (same, late)) = ground (arith, late)
