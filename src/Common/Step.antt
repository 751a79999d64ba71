-- ===== src/Common/Step.antt =====
-- Steps on a state that fail with a return code, or crash at an ASSERT or a null pointer.
use miniob4cqu_db_exp.Common.ReturnCode.{Rc}

pub data Outcome (S A : Type 0) : Type 0 where
  done : A → S → Outcome S A
  failed : Rc → S → Outcome S A
  crash : Outcome S A

abbrev pub Step : Type 0 → Type 0 → Type 0
Step S A = S → Outcome S A

abbrev pub and_then : {S A B : Type 0} → Outcome S A → (A → Step S B) → Outcome S B
and_then (done a s) f = f a s
and_then (failed rc s) f = failed rc s
and_then crash f = crash

infixl 5 ◌>>=◌ ◌>>◌
abbrev pub ◌>>=◌ : {S A B : Type 0} → Step S A → (A → Step S B) → Step S B
m >>= f = λ s. and_then (m s) f

abbrev pub ◌>>◌ : {S B : Type 0} → Step S (Unit {0}) → Step S B → Step S B
m >> k = m >>= λ _. k

abbrev pub dropped : {S : Type 0} → Outcome S (Unit {0}) → Outcome S (Unit {0})
dropped (done a s) = done tt s
dropped (failed rc s) = done tt s
dropped crash = crash

-- A call whose return code the caller drops.
abbrev pub ignore : {S : Type 0} → Step S (Unit {0}) → Step S (Unit {0})
ignore m = λ s. dropped (m s)

abbrev pub return : {S A : Type 0} → A → Step S A
return a = λ s. done a s

abbrev pub fail : {S A : Type 0} → Rc → Step S A
fail rc = λ s. failed rc s
