-- ===== src/Index/Logged.antt =====
-- The log of a mini transaction accounts for every change of the pages.
use mathlib.Core.List.{append_assoc, append-nil}
use miniob4cqu_db_exp.Common.{
  ℕ, ◌≡◌, refl, sym, ap, ◌∙◌, Bool, true, false, Rc, Option, none, some, List, [], ◌∷◌, ◌++◌, ◌==◌,
  ==_iff, if◌then◌else◌, arith, Bool-cases, inl, inr,
}
use miniob4cqu_db_exp.Common.Step.{
  Step, Outcome, done, failed, crash, and_then, ◌>>=◌, dropped, ignore, return, fail,
}
use miniob4cqu_db_exp.Index.Page.{IndexKeys, Page, Index, write, LogEntry}
use miniob4cqu_db_exp.Index.Replay.{page_num, redo_page}

module _ (K : IndexKeys) where
  abbrev pub and_redo : Option (Page K) → (Page K → Option (Page K)) → Option (Page K)
  and_redo none f = none
  and_redo (some page) f = f page

  -- The entries of one page, applied in order.
  abbrev pub applied : ℕ → List (LogEntry K) → Page K → Option (Page K)
  applied p [] page = some page
  applied p (e ∷ entries) page =
      if page_num K e == p
      then and_redo (redo_page K e page) (applied p entries)
      else applied p entries page

  -- From one state to a later one, the entries that were logged turn each page into what it is.
  pub record Logged (s s' : Index K) : Type 0 where
    pub entries : List (LogEntry K)
    pub log : s'.log ≡ s.log ++ entries
    pub pages : (p : ℕ) → applied p entries (s.pages p) ≡ some (s'.pages p)

  applied-through :
      (p : ℕ) (xs ys : List (LogEntry K)) (page' : Page K)
      → ((page : Page K)
          → applied p xs page ≡ some page'
          → applied p (xs ++ ys) page ≡ applied p ys page')
      → (o : Option (Page K)) → and_redo o (applied p xs) ≡ some page'
      → and_redo o (applied p (xs ++ ys)) ≡ applied p ys page'
  applied-through p xs ys page' later none h = absurd (ground (arith, h))
  applied-through p xs ys page' later (some page) h = later page h

  applied-append :
      (p : ℕ) (xs ys : List (LogEntry K)) (page page' : Page K)
      → applied p xs page ≡ some page'
      → applied p (xs ++ ys) page ≡ applied p ys page'
  applied-append p [] ys page page' h = ap (applied p ys) (ground (arith, h))
  applied-append p (e ∷ xs) ys page page' h = elim (Bool-cases (page_num K e == p)) [
    | inl here ↦ rw here (
        applied-through p xs ys page' (λ page. applied-append p xs ys page page')
          (redo_page K e page) (rw here at h))
    | inr other ↦ rw other (applied-append p xs ys page page' (rw other at h))
  ]

  pub Logged-refl : (s : Index K) → Logged s s
  Logged-refl s = record { entries = []; log = sym (append-nil s.log); pages = λ p. refl }

  pub Logged-trans : {s t u : Index K} → Logged s t → Logged t u → Logged s u
  Logged-trans {s = s} {t = t} {u = u} h k = record {
    entries = h.entries ++ k.entries;
    log = k.log ∙ ap (λ l. l ++ k.entries) h.log ∙ append_assoc s.log h.entries k.entries;
    pages =
        λ p. applied-append p h.entries k.entries (s.pages p) (t.pages p) (h.pages p) ∙ k.pages p;
  }

  pub Logged-write :
      (s : Index K) (e : LogEntry K) (page : Page K)
      → redo_page K e (s.pages (page_num K e)) ≡ some page
      → Logged s (record s { log = s.log ++ e ∷ []; pages = write K s.pages (page_num K e) page })
  Logged-write s e page h = record {
    entries = e ∷ [];
    log = refl;
    pages = λ p. elim (Bool-cases (page_num K e == p)) [
      | inl here ↦ rw here (ap (λ o. and_redo o (λ x. some x)) (same p here ∙ h))
      | inr other ↦ rw other refl
    ];
  }
    where
      same :
          (p : ℕ)
          → (page_num K e == p) ≡ true
          → redo_page K e (s.pages p) ≡ redo_page K e (s.pages (page_num K e))
      same p here = ap (λ q. redo_page K e (s.pages q)) (sym ((==_iff (page_num K e) p).0 here))

  -- What a step ends in.
  abbrev pub Ends : {A : Type 0} → Index K → Outcome (Index K) A → Type 0
  Ends s (done a s') = Logged s s'
  Ends s (failed rc s') = Logged s s'
  Ends s crash = Unit

  -- A step whose log accounts for what it changes.
  abbrev pub Logs : {A : Type 0} → Step (Index K) A → Type 0
  Logs m = (s : Index K) → Ends s (m s)

  Ends-later :
      {A : Type 0} {s t : Index K} (o : Outcome (Index K) A) → Logged s t → Ends t o → Ends s o
  Ends-later (done a u) h k = Logged-trans h k
  Ends-later (failed rc u) h k = Logged-trans h k
  Ends-later crash h k = tt

  pub Logs-bind :
      {A B : Type 0} (m : Step (Index K) A) (f : A → Step (Index K) B)
      → Logs m
      → ((a : A) → Logs (f a))
      → Logs (m >>= f)
  Logs-bind m f h k s = through (m s) (h s)
    where
      through : (o : Outcome (Index K) _) → Ends s o → Ends s (and_then o f)
      through (done a t) e = Ends-later (f a t) e (k a t)
      through (failed rc t) e = e
      through crash e = tt

  pub Logs-ignore : (m : Step (Index K) (Unit {0})) → Logs m → Logs (ignore m)
  Logs-ignore m h s = through (m s) (h s)
    where
      through : (o : Outcome (Index K) (Unit {0})) → Ends s o → Ends s (dropped o)
      through (done a t) e = e
      through (failed rc t) e = e
      through crash e = tt

  pub Logs-return : {A : Type 0} (a : A) → Logs (return a)
  Logs-return a s = Logged-refl s

  pub Logs-fail : (A : Type 0) (rc : Rc) → Logs {A = A} (fail rc)
  Logs-fail A rc s = Logged-refl s

  pub Logs-crash : (A : Type 0) → Logs {A = A} (λ s. crash)
  Logs-crash A s = tt

  pub if-Logs :
      {A : Type 0} (b : Bool) (m k : Step (Index K) A) → Logs m → Logs k → Logs (if b then m else k)
  if-Logs true m k h l = h
  if-Logs false m k h l = l

  pub case-Logs :
      {A : Type 0} (b : Bool) (m k : Step (Index K) A)
      → Logs m
      → Logs k
      → Logs (elim b as (λ x. Step (Index K) A) [ true ↦ m | false ↦ k ])
  case-Logs true m k h l = h
  case-Logs false m k h l = l

  pub option-Logs :
      {A B : Type 0} (o : Option B) (m : Step (Index K) A) (f : B → Step (Index K) A)
      → Logs m
      → ((b : B) → Logs (f b))
      → Logs (elim o as (λ x. Step (Index K) A) [ none ↦ m | some b ↦ f b ])
  option-Logs none m f h k = h
  option-Logs (some b) m f h k = k b

  pub option-Ends :
      {A B : Type 0} (s : Index K) (o : Option B) (m : Outcome (Index K) A)
      (f : B → Outcome (Index K) A)
      → Ends s m
      → ((b : B) → Ends s (f b))
      → Ends s (elim o as (λ x. Outcome (Index K) A) [ none ↦ m | some b ↦ f b ])
  option-Ends s none m f h k = h
  option-Ends s (some b) m f h k = k b
