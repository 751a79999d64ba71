-- ===== src/Lsm/Walk.antt =====
-- The state of a user iterator on its walk over the internal entries.
use Prim.Native.Nat.{Ordering}
use miniob4cqu_db_exp.Common.{
  ℕ, ◌≡◌, ◌≢◌, refl, sym, ap, true, false, not, ◌&&◌, ◌||◌, Option, none, some, List, [], ◌∷◌, All,
  arith, leb, ltb,
}
use miniob4cqu_db_exp.Lsm.Keys.{KeyOrder, Entry, compare_internal, Ahead, IsSorted}
use miniob4cqu_db_exp.Lsm.UserIterator.{skips}
use miniob4cqu_db_exp.Lsm.Visible.{
  any, any_cong, any_none, All-map, is_empty, same_key, covers, newest,
}

module _ (O : KeyOrder) where
  open O use {Key, compare_keys}

  -- What the walk so far, `past`, and its state say of the entries that are still to come.
  pub record State (seq : ℕ) (skip : Option Key) (past l : List (Entry O)) : Type 0 where
    pub sorted : IsSorted O l
    pub behind : All (λ e. All (λ d. Ahead O d e) past) l
    pub covered : All (λ e. any (covers O seq e) past ≡ skips O skip e.user_key) l
    pub reached : All (λ e. (k : Key) → skip ≡ some k → compare_keys k e.user_key ≢ Ordering.gt) l

  Ahead-same :
      (d e : Entry O)
      → Ahead O d e
      → same_key O d.user_key e.user_key ≡ true
      → ltb e.sequence d.sequence ≡ true
  unfolding compare_internal
  Ahead-same d e h k = ground arith

  not_newer :
      (seq : ℕ) (e d : Entry O)
      → Ahead O e d
      → (covers O seq e d && ltb e.sequence d.sequence) ≡ false
  unfolding compare_internal
  not_newer seq e d h =
      ground (arith, O.compare-eq d.user_key e.user_key, O.compare-self d.user_key)

  self_not_newer : (seq : ℕ) (e : Entry O) → (covers O seq e e && ltb e.sequence e.sequence) ≡ false
  self_not_newer seq e = ground arith

  past_newer :
      (seq : ℕ) (e d : Entry O)
      → Ahead O d e
      → (covers O seq e d && ltb e.sequence d.sequence) ≡ covers O seq e d
  past_newer seq e d h = ground (arith, Ahead-same d e h)

  -- The keys do not go back.
  Ahead-skips :
      (e f : Entry O)
      → Ahead O e f
      → skips O (some e.user_key) f.user_key ≡ same_key O e.user_key f.user_key
  unfolding compare_internal skips
  Ahead-skips e f h = ground (
    arith,
    O.compare-eq e.user_key f.user_key,
    O.compare-self e.user_key,
    O.compare-lt e.user_key f.user_key,
  )

  Ahead-reached : (e f : Entry O) → Ahead O e f → compare_keys e.user_key f.user_key ≢ Ordering.gt
  unfolding compare_internal
  Ahead-reached e f h k = ground arith

  -- A key that is still skipped behind `e` is the key of `e`.
  skips_again :
      (skip : Option Key) (e f : Entry O)
      → ((k : Key) → skip ≡ some k → compare_keys k e.user_key ≢ Ordering.gt)
      → Ahead O e f
      → skips O skip f.user_key ≡ true
      → same_key O e.user_key f.user_key ≡ true
  unfolding compare_internal skips
  skips_again none e f h a s = ground arith
  skips_again (some k) e f h a s = ground (
    arith,
    h k refl,
    O.compare-eq k e.user_key,
    O.compare-trans k e.user_key f.user_key,
    O.compare-lt k f.user_key,
  )

  skips_same :
      (skip : Option Key) (e f : Entry O)
      → same_key O e.user_key f.user_key ≡ true
      → skips O skip f.user_key ≡ skips O skip e.user_key
  skips_same skip e f h =
      ap (skips O skip) (sym (O.compare-eq e.user_key f.user_key (ground arith)))

  -- One entry of the walk: the state behind it, if it is too new, if its key is taken up, and if it
  -- is skipped.
  module _ (seq : ℕ) (skip : Option Key) (past : List (Entry O)) (e : Entry O) (l : List (Entry O))
      (s : State seq skip past (e ∷ l)) where
    advance :
        (next_skip : Option Key)
        → ((f : Entry O)
            → Ahead O e f
            → any (covers O seq f) past ≡ skips O skip f.user_key
            → ((k : Key) → skip ≡ some k → compare_keys k f.user_key ≢ Ordering.gt)
            → (any (covers O seq f) (e ∷ past) ≡ skips O next_skip f.user_key)
              × ((k : Key) → next_skip ≡ some k → compare_keys k f.user_key ≢ Ordering.gt))
        → State seq next_skip (e ∷ past) l
    advance next_skip h = record {
      sorted = s.sorted.1;
      behind = behind_tail l s.sorted.0 s.behind.1;
      covered = covered_tail l s.sorted.0 s.covered.1 s.reached.1;
      reached = reached_tail l s.sorted.0 s.covered.1 s.reached.1;
    }
      where
        behind_tail :
            (l : List (Entry O))
            → All (Ahead O e) l
            → All (λ f. All (λ d. Ahead O d f) past) l
            → All (λ f. All (λ d. Ahead O d f) (e ∷ past)) l
        behind_tail [] a b = tt
        behind_tail (f ∷ l) a b = ((a.0, b.0), behind_tail l a.1 b.1)

        covered_tail :
            (l : List (Entry O))
            → All (Ahead O e) l
            → All (λ f. any (covers O seq f) past ≡ skips O skip f.user_key) l
            → All (λ f. (k : Key) → skip ≡ some k → compare_keys k f.user_key ≢ Ordering.gt) l
            → All (λ f. any (covers O seq f) (e ∷ past) ≡ skips O next_skip f.user_key) l
        covered_tail [] a b c = tt
        covered_tail (f ∷ l) a b c = ((h f a.0 b.0 c.0).0, covered_tail l a.1 b.1 c.1)

        reached_tail :
            (l : List (Entry O))
            → All (Ahead O e) l
            → All (λ f. any (covers O seq f) past ≡ skips O skip f.user_key) l
            → All (λ f. (k : Key) → skip ≡ some k → compare_keys k f.user_key ≢ Ordering.gt) l
            → All (λ f. (k : Key) → next_skip ≡ some k → compare_keys k f.user_key ≢ Ordering.gt) l
        reached_tail [] a b c = tt
        reached_tail (f ∷ l) a b c = ((h f a.0 b.0 c.0).1, reached_tail l a.1 b.1 c.1)

    pub too_new : leb e.sequence seq ≡ false → State seq skip (e ∷ past) l
    too_new late = advance skip (λ f a b c. (ground arith, c))

    pub taken_up : leb e.sequence seq ≡ true → State seq (some e.user_key) (e ∷ past) l
    taken_up early = advance (some e.user_key) (λ f a b c. (
      ground (arith, skips_again skip e f s.reached.0 a, Ahead-skips e f a),
      λ k same past_it. Ahead-reached e f a (cc),
    ))

    pub skipped :
        leb e.sequence seq ≡ true → skips O skip e.user_key ≡ true → State seq skip (e ∷ past) l
    skipped early skip_e = advance skip (λ f a b c. (ground (arith, skips_same skip e f), c))

    -- Only a version that was passed before `e` can be newer.
    pub newest_here :
        (all : List (Entry O))
        → any (λ d. covers O seq e d && ltb e.sequence d.sequence) all ≡ (
            any (λ d. covers O seq e d && ltb e.sequence d.sequence) past
            || any (λ d. covers O seq e d && ltb e.sequence d.sequence) (e ∷ l))
        → newest O seq all e
          ≡ (leb e.sequence seq && not (is_empty O e.value) && not (skips O skip e.user_key))
    newest_here all split =
        let before =
          any_cong _ (covers O seq e) past (All-map (past_newer seq e) past s.behind.0) in
        let after =
          any_none (λ d. covers O seq e d && ltb e.sequence d.sequence) l
            (All-map (not_newer seq e) l s.sorted.0) in
        rw (split, before, after, self_not_newer seq e, s.covered.0) (ground arith)
