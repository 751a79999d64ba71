-- ===== src/Lsm/EntryOrder.antt =====
-- The order of internal keys as a weak order, and entries taken out of a list of children.
use Prim.Native.Nat.{Ordering}
use mathlib.Core.List.{Permᴰ}
use mathlib.Core.List.Permᴰ
use miniob4cqu_db_exp.Common.{
  suc, ◌≡◌, ◌≢◌, refl, sym, subst, ap, ◌∙◌, List, [], ◌∷◌, ◌++◌, length, All, arith,
}
use miniob4cqu_db_exp.Lsm.Keys.{KeyOrder, Entry, compare_internal, Ahead}

module _ (O : KeyOrder) where
  open O use {Key, compare_keys}

  abbrev pub NotBehind : Entry O → Entry O → Type 0
  NotBehind a b = compare_internal O a b ≢ Ordering.gt

  abbrev pub InOrder : List (Entry O) → Type 0
  InOrder [] = Unit
  InOrder (e ∷ l) = All (NotBehind e) l × InOrder l

  abbrev pub entries_of : List (List (Entry O)) → List (Entry O)
  entries_of [] = []
  entries_of (child ∷ children) = child ++ entries_of children

  pub NotBehind-refl : (a : Entry O) → NotBehind a a
  unfolding compare_internal
  NotBehind-refl a h = ground (arith, O.compare-self a.user_key)

  pub Ahead-NotBehind : (a b : Entry O) → Ahead O a b → NotBehind a b
  Ahead-NotBehind a b h k = ground arith

  pub NotBehind-trans : (a b c : Entry O) → NotBehind a b → NotBehind b c → NotBehind a c
  unfolding compare_internal
  NotBehind-trans a b c h k l = ground (
    arith,
    h,
    k,
    l,
    O.compare-eq a.user_key b.user_key,
    O.compare-eq b.user_key c.user_key,
    O.compare-eq a.user_key c.user_key,
    O.compare-trans a.user_key b.user_key c.user_key,
    O.compare-self a.user_key,
    O.compare-self b.user_key,
  )

  pub NotAhead-NotBehind : (a b : Entry O) → compare_internal O a b ≢ Ordering.lt → NotBehind b a
  unfolding compare_internal
  NotAhead-NotBehind a b h k = ground (
    arith,
    h,
    k,
    O.compare-eq a.user_key b.user_key,
    O.compare-eq b.user_key a.user_key,
    O.compare-self a.user_key,
    O.compare-gt b.user_key a.user_key,
  )

  pub All-Perm {κ} : (P : Entry O → Type κ) {l m : List (Entry O)} → Permᴰ l m → All P m → All P l
  All-Perm P Permᴰ.nil h = h
  All-Perm P (Permᴰ.cons e p) h = (subst P (sym e) h.0, All-Perm P p h.1)
  All-Perm P (Permᴰ.swap e f) h = (subst P (sym e) h.1.0, (subst P (sym f) h.0, h.1.1))
  All-Perm P (Permᴰ.trans p q) h = All-Perm P p (All-Perm P q h)

  pub length-Perm : {l m : List (Entry O)} → Permᴰ l m → length l ≡ length m
  length-Perm Permᴰ.nil = refl
  length-Perm (Permᴰ.cons e p) = ap suc (length-Perm p)
  length-Perm (Permᴰ.swap e f) = refl
  length-Perm (Permᴰ.trans p q) = length-Perm p ∙ length-Perm q

  pub behind_head :
      (e c : Entry O) (r : List (Entry O)) → NotBehind e c → All (Ahead O c) r → All (NotBehind e) r
  behind_head e c [] h a = tt
  behind_head e c (d ∷ r) h a =
      (NotBehind-trans e c d h (Ahead-NotBehind c d a.0), behind_head e c r h a.1)

  -- An entry is taken out of a later child.
  pub take_later :
      (e : Entry O) (child xs ys : List (Entry O))
      → Permᴰ (e ∷ xs) ys
      → Permᴰ (e ∷ (child ++ xs)) (child ++ ys)
  take_later e child xs ys p =
      Permᴰ.trans (Permᴰ.symm (Permᴰ.middle e child xs)) (Permᴰ.append_left child p)
