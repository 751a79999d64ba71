-- ===== src/Index/Redo.antt =====
-- Redo of the log of an insertion or a deletion gives the pages that the operation left.
use miniob4cqu_db_exp.Common.{
  ℕ, ◌≤◌, ◌<◌, ◌≡◌, refl, sym, ap, subst, ◌∙◌, Bool, true, false, Rc, Option, none, some, List, [],
  ◌∷◌, ◌++◌, ◌⊎◌, inl, inr, leb, ◌==◌, ==_iff, arith, Bool-cases,
}
use miniob4cqu_db_exp.Common.Step.{Step, done}
use miniob4cqu_db_exp.Index.Page.{IndexKeys, Key, Page, Rid, Index, LogEntry}
use miniob4cqu_db_exp.Index.Tree.{Sizes, insert_entry}
use miniob4cqu_db_exp.Index.Delete.{delete_entry}
use miniob4cqu_db_exp.Index.Replay.{page_num, redo_page, Stored, put, redo_loop, set_lsns, redo}
use miniob4cqu_db_exp.Index.Logged.{Logged, Ends, and_redo, applied}
use miniob4cqu_db_exp.Index.LoggedTree.{insert_entry-Logs}
use miniob4cqu_db_exp.Index.LoggedDelete.{delete_entry-Logs}

pub data Operation (K : IndexKeys) : Type 0 where
  inserts : Key K → Rid → Operation K
  deletes : Key K → Operation K

module _ (K : IndexKeys) where
  abbrev pub run_operation : Sizes → ℕ → Operation K → Step (Index K) (Unit {0})
  run_operation sizes fuel (inserts key r) = insert_entry K sizes fuel key r
  run_operation sizes fuel (deletes key) = delete_entry K sizes fuel key

  set_lsns-page :
      (lsn : ℕ) (frames : List ℕ) (store : ℕ → Stored K) (q : ℕ)
      → (set_lsns K lsn frames store q).page ≡ (store q).page
  set_lsns-page lsn [] store q = refl
  set_lsns-page lsn (p ∷ frames) store q = elim (Bool-cases (p == q)) [
    | inl here ↦ rw here refl
    | inr other ↦ rw other (set_lsns-page lsn frames store q)
  ]

  -- The pages whose frames are older than the entry have the rest of the log before them.
  abbrev Awaits : ℕ → List (LogEntry K) → (ℕ → Stored K) → (ℕ → Page K) → Type 0
  Awaits lsn entries store target =
      (p : ℕ)
      → ((leb lsn (store p).lsn ≡ false) × (applied K p entries (store p).page ≡ some (target p)))
        ⊎ ((leb lsn (store p).lsn ≡ true) × ((store p).page ≡ target p))

  Awaits-skip :
      (lsn : ℕ) (e : LogEntry K) (entries : List (LogEntry K)) (store : ℕ → Stored K)
      (target : ℕ → Page K)
      → leb lsn (store (page_num K e)).lsn ≡ true
      → Awaits lsn (e ∷ entries) store target
      → Awaits lsn entries store target
  Awaits-skip lsn e entries store target old h p = elim (h p) [
    | inr now ↦ inr now
    | inl (new, rest) ↦ elim (Bool-cases (page_num K e == p)) [
      | inl here ↦ absurd (clash p ((==_iff (page_num K e) p).0 here) new)
      | inr other ↦ inl (new, rw other at rest)
    ]
  ]
    where
      clash : (p : ℕ) → page_num K e ≡ p → leb lsn (store p).lsn ≡ false → ⊥
      clash p same new = ground (arith, ap (λ q. leb lsn (store q).lsn) same, old, new)

  Awaits-put :
      (lsn : ℕ) (e : LogEntry K) (entries : List (LogEntry K)) (store : ℕ → Stored K)
      (target : ℕ → Page K) (page : Page K)
      → leb lsn (store (page_num K e)).lsn ≡ false
      → redo_page K e (store (page_num K e)).page ≡ some page
      → Awaits lsn (e ∷ entries) store target
      → Awaits lsn entries (put K store (page_num K e) page) target
  Awaits-put lsn e entries store target page new run h p = elim (Bool-cases (page_num K e == p)) [
    | inr other ↦
        rw other
          (elim (h p) [ inl (fresh, rest) ↦ inl (fresh, rw other at rest) | inr now ↦ inr now ])
    | inl here ↦ rw here (elim (h p) [
      | inl (fresh, rest) ↦ inl (fresh, next here (rw here at rest))
      | inr (old, now) ↦ absurd (clash here old)
    ])
  ]
    where
      clash : (page_num K e == p) ≡ true → leb lsn (store p).lsn ≡ true → ⊥
      clash here old =
          ground
            (arith, ap (λ q. leb lsn (store q).lsn) ((==_iff (page_num K e) p).0 here), old, new)

      next :
          (page_num K e == p) ≡ true
          → and_redo K (redo_page K e (store p).page) (applied K p entries) ≡ some (target p)
          → applied K p entries page ≡ some (target p)
      next here rest =
          ap (λ o. and_redo K o (applied K p entries))
            (sym run ∙ ap (λ q. redo_page K e (store q).page) ((==_iff (page_num K e) p).0 here))
          ∙ rest

  -- At an entry whose page awaits it, the page can take it.
  Awaits-runs :
      (lsn : ℕ) (e : LogEntry K) (entries : List (LogEntry K)) (store : ℕ → Stored K)
      (target : ℕ → Page K)
      → leb lsn (store (page_num K e)).lsn ≡ false
      → Awaits lsn (e ∷ entries) store target
      → (page : Page K) × (redo_page K e (store (page_num K e)).page ≡ some page)
  Awaits-runs lsn e entries store target new h = elim (h (page_num K e)) [
    | inr (old, now) ↦ absurd (ground (arith, old, new))
    | inl (fresh, rest) ↦
        by_run (redo_page K e (store (page_num K e)).page) refl
          (rw ((==_iff (page_num K e) (page_num K e)).1 refl) at rest)
  ]
    where
      by_run :
          (o : Option (Page K))
          → redo_page K e (store (page_num K e)).page ≡ o
          → and_redo K o (applied K (page_num K e) entries) ≡ some (target (page_num K e))
          → (page : Page K) × (redo_page K e (store (page_num K e)).page ≡ some page)
      by_run none k rest = absurd (ground (arith, rest))
      by_run (some page) k rest = (page, k)

  loop-pages :
      (readable : ℕ → Bool) (lsn : ℕ) (entries : List (LogEntry K)) (store : ℕ → Stored K)
      (frames : List ℕ) (target : ℕ → Page K)
      → ((p : ℕ) → readable p ≡ true)
      → Awaits lsn entries store target
      → (store' : ℕ → Stored K) × (frames' : List ℕ) × (redo_loop K readable lsn entries store
            frames
          ≡ some (true, store', frames'))
        × ((p : ℕ) → (store' p).page ≡ target p)
  unfolding redo_loop
  loop-pages readable lsn [] store frames target can h = (
    store,
    frames,
    refl,
    λ p. elim (h p) [ inl (new, rest) ↦ ground (arith, rest) | inr (old, now) ↦ now ],
  )
  loop-pages readable lsn (e ∷ entries) store frames target can h =
      elim (Bool-cases (leb lsn (store (page_num K e)).lsn)) [
        | inl old ↦
            let (store', frames', run, same) =
              loop-pages readable lsn entries store frames target can
                (Awaits-skip lsn e entries store target old h) in
            (store', frames', rw (can (page_num K e), redo_loop) (rw old run), same)
        | inr new ↦
            let (page, takes) = Awaits-runs lsn e entries store target new h in
            let (store', frames', run, same) =
              loop-pages readable lsn entries (put K store (page_num K e) page)
                (page_num K e ∷ frames) target can
                (Awaits-put lsn e entries store target page new takes h) in
            (store', frames', rw (can (page_num K e), redo_loop) (rw new (rw takes run)), same)
      ]

  operation-Logged :
      (sizes : Sizes) (fuel : ℕ) (o : Operation K) (s s' : Index K)
      → run_operation sizes fuel o s ≡ done tt s'
      → Logged K s s'
  operation-Logged sizes fuel (inserts key r) s s' run =
      subst (Ends K s) run (insert_entry-Logs K sizes fuel key r s)
  operation-Logged sizes fuel (deletes key) s s' run =
      subst (Ends K s) run (delete_entry-Logs K sizes fuel key s)

  -- Recovery of the index. An insertion or a deletion that starts with an empty log and succeeds
  -- leaves a log with which `redo` succeeds and gives exactly the pages that the operation left.
  -- At the start of `redo` each page can be read; it has the content from before the operation and a
  -- number below the log entry's, or the content from after it and a number that is not below.
  pub redo-operation :
      (sizes : Sizes) (fuel : ℕ) (o : Operation K) (s s' : Index K) (readable : ℕ → Bool) (lsn : ℕ)
      (store : ℕ → Stored K)
      → s.log ≡ []
      → run_operation sizes fuel o s ≡ done tt s'
      → ((p : ℕ) → readable p ≡ true)
      → ((p : ℕ)
          → (((store p).lsn < lsn) × ((store p).page ≡ s.pages p))
            ⊎ ((lsn ≤ (store p).lsn) × ((store p).page ≡ s'.pages p)))
      → (store' : ℕ → Stored K) × (redo K readable lsn s'.log store ≡ some (Rc.success, store'))
        × ((p : ℕ) → (store' p).page ≡ s'.pages p)
  unfolding redo
  redo-operation sizes fuel o s s' readable lsn store start run can split =
      let l : Logged K s s' = operation-Logged sizes fuel o s s' run in
      let log : s'.log ≡ l.entries = l.log ∙ ap (λ x. x ++ l.entries) start in
      let (store', frames, loop, same) =
        loop-pages readable lsn l.entries store [] s'.pages can (awaits l) in
      (
        set_lsns K lsn frames store',
        rw (log, loop) refl,
        λ p. set_lsns-page lsn frames store' p ∙ same p,
      )
    where
      awaits : (l : Logged K s s') → Awaits lsn l.entries store s'.pages
      awaits l p = elim (split p) [
        | inl (older, before) ↦ inl (ground arith, ap (applied K p l.entries) before ∙ l.pages p)
        | inr (newer, after) ↦ inr (ground arith, after)
      ]
