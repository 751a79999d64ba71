-- ===== src/Lsm/Visible.antt =====
-- Which entries are in a snapshot, and which ones `find_next_user_entry` lets pass.
use Prim.Native.Nat.{Ordering}
use miniob4cqu_db_exp.Common.{
  ℕ, ◌≡◌, refl, Bool, true, false, not, ◌&&◌, ◌||◌, Option, some, List, [], ◌∷◌, All, arith, leb,
  ltb, if◌then◌else◌,
}
use miniob4cqu_db_exp.Lsm.Keys.{KeyOrder, Entry}
use miniob4cqu_db_exp.Lsm.UserIterator.{skips}

abbrev pub any {ℓ} : {A : Type ℓ} → (A → Bool) → List A → Bool
any p [] = false
any p (x ∷ xs) = p x || any p xs

abbrev pub filter {ℓ} : {A : Type ℓ} → (A → Bool) → List A → List A
filter p [] = []
filter p (x ∷ xs) = if p x then x ∷ filter p xs else filter p xs

pub any_cong {ℓ} :
    {A : Type ℓ} (p q : A → Bool) (xs : List A) → All (λ x. p x ≡ q x) xs → any p xs ≡ any q xs
any_cong p q [] h = refl
any_cong p q (x ∷ xs) h = λ i. h.0 i || any_cong p q xs h.1 i

pub any_none {ℓ} :
    {A : Type ℓ} (p : A → Bool) (xs : List A) → All (λ x. p x ≡ false) xs → any p xs ≡ false
any_none p [] h = refl
any_none p (x ∷ xs) h = ground (arith, any_none p xs, h)

pub All-map {ℓ κ λ'} :
    {A : Type ℓ} {P : A → Type κ} {Q : A → Type λ'} (f : (x : A) → P x → Q x) (xs : List A)
    → All P xs
    → All Q xs
All-map f [] h = tt
All-map f (x ∷ xs) h = (f x h.0, All-map f xs h.1)

pub everywhere {ℓ κ} : {A : Type ℓ} (P : A → Type κ) → ((x : A) → P x) → (xs : List A) → All P xs
everywhere P h [] = tt
everywhere P h (x ∷ xs) = (h x, everywhere P h xs)

pub any_move {ℓ} :
    {A : Type ℓ} (p : A → Bool) (x : A) (xs ys : List A)
    → (any p xs || any p (x ∷ ys)) ≡ (any p (x ∷ xs) || any p ys)
any_move p x xs ys = ground arith

module _ (O : KeyOrder) where
  open O use {Key, compare_keys}

  abbrev pub is_empty : List ℕ → Bool
  is_empty [] = true
  is_empty (b ∷ bs) = false

  abbrev pub same_key : Key → Key → Bool
  same_key a b = elim (compare_keys a b) [ Ordering.eq ↦ true | _ ↦ false ]

  -- `d` is a version of the key of `e` that the snapshot `seq` has.
  abbrev pub covers : ℕ → Entry O → Entry O → Bool
  covers seq e d = same_key d.user_key e.user_key && leb d.sequence seq

  -- `e` is in the snapshot `seq` of the entries: it is old enough, no deletion, and of the versions
  -- of its key that are old enough none is newer.
  abbrev pub newest : ℕ → List (Entry O) → Entry O → Bool
  newest seq entries e =
      leb e.sequence seq
      && not (is_empty e.value)
      && not (any (λ d. covers seq e d && ltb e.sequence d.sequence) entries)

  -- The versions that `find_next_user_entry` lets pass, from a state of it on.
  abbrev pub shown : ℕ → Option Key → List (Entry O) → List (Entry O)
  shown seq skip [] = []
  shown seq skip (e ∷ l) =
      if leb e.sequence seq
      then if is_empty e.value
        then shown seq (some e.user_key) l
        else if skips O skip e.user_key
        then shown seq skip l
        else e ∷ shown seq (some e.user_key) l
      else shown seq skip l
