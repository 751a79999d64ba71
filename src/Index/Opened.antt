-- ===== src/Index/Opened.antt =====
-- What a scanner does that was opened at a place.
use miniob4cqu_db_exp.Common.{
  ℕ, zero, suc, ◌+◌, ◌<◌, ◌≡◌, refl, sym, ap, ◌∙◌, Bool, true, false, Option, none, some, List, [],
  ◌∷◌, ◌++◌, drop, length, get_elem?, arith, if◌then◌else◌,
}
use miniob4cqu_db_exp.Common.Step.{Step, done, and_then}
use miniob4cqu_db_exp.Index.Page.{IndexKeys, Key, Item, Node, Page, Rid, Index}
use miniob4cqu_db_exp.Index.Leaves.{flatten}
use miniob4cqu_db_exp.Index.Chain.{
  IsRid, rid_in, IsLeaf, IsChain, past, rids_to, drop-get, get-in, touch_end-past,
}
use miniob4cqu_db_exp.Index.Fetch.{fetch_all-opened}
use miniob4cqu_db_exp.Index.Scanner.{touch_end, next_entry, fetch_all}

module _ (K : IndexKeys) where
  -- All leaves, each of which names the next one.
  abbrev pub IsChained : (ℕ → Page K) → List ℕ → Type 0
  IsChained pages [] = ⊥
  IsChained pages (p ∷ rest) = IsChain K pages p rest

  pub IsChained-from :
      (pages : ℕ → Page K) (before : List ℕ) (leaf : ℕ) (after : List ℕ)
      → IsChained pages (before ++ leaf ∷ after)
      → IsChain K pages leaf after
  IsChained-from pages [] leaf after h = h
  IsChained-from pages (p ∷ []) leaf after (n, is_leaf, next, chain) = chain
  IsChained-from pages (p ∷ q ∷ before) leaf after (n, is_leaf, next, chain) =
      IsChained-from pages (q ∷ before) leaf after chain

  -- What a scanner does that was opened at a place, or at none.
  abbrev pub opened_at : ℕ → Option (Key K) → Option (ℕ × ℕ) → Step (Index K) (List Rid)
  opened_at rounds right none s =
      fetch_all K rounds
        (record { current = none; index = 0; right_key = none; first_emitted = false }) s
  opened_at rounds right (some at) s = and_then (touch_end K right at.0 at.1 s) (λ over.
      fetch_all K rounds (record {
        current = if over then none else some at.0;
        index = at.1;
        right_key = right;
        first_emitted = false;
      }))

  pub fetch_all-closed :
      (fuel i : ℕ) (right : Option (Key K)) (s : Index K)
      → 0 < fuel
      → fetch_all K fuel
          (record { current = none; index = i; right_key = right; first_emitted = false })
          s
        ≡ done [] s
  unfolding fetch_all next_entry
  fetch_all-closed zero i right s h = absurd (omega arith)
  fetch_all-closed (suc fuel) i right s h = refl

  pub opened_at-rids_to :
      (rounds p i : ℕ) (n : Node K) (rest : List ℕ) (right : Option (Key K)) (s : Index K)
      → IsLeaf K s.pages p n
      → IsChain K s.pages p rest
      → i < length n.items
      → length (drop i n.items ++ flatten K s.pages rest) < rounds
      → opened_at rounds right (some (p, i)) s
        ≡ done (rids_to K right (drop i n.items ++ flatten K s.pages rest)) s
  opened_at-rids_to rounds p i n rest right s leaf chain inside enough =
      let (x, here, is_rid) = get-in K n.items i inside leaf.2 in
      ap
        (λ r. and_then r (λ over. fetch_all K rounds (record {
          current = if over then none else some p;
          index = i;
          right_key = right;
          first_emitted = false;
        })))
        (touch_end-past K right p i n x s leaf.0 here)
      ∙ by_past x here is_rid (past K right x) refl
    where
      by_past :
          (x : Item K)
          → get_elem? n.items i ≡ some x
          → IsRid K x
          → (b : Bool) → past K right x ≡ b
          → fetch_all K rounds
              (record {
                current = if b then none else some p;
                index = i;
                right_key = right;
                first_emitted = false;
              })
              s
            ≡ done (rids_to K right (drop i n.items ++ flatten K s.pages rest)) s
      by_past x here is_rid true over =
          fetch_all-closed rounds i right s (omega arith)
          ∙ ap (λ l. done l s)
              (sym (
                ap (λ l. rids_to K right (l ++ flatten K s.pages rest))
                  (drop-get K n.items i x here)
                ∙ ap
                    (λ b.
                      if b
                      then []
                      else rid_in K x
                        ∷ rids_to K right (drop (i + 1) n.items ++ flatten K s.pages rest))
                    over))
      by_past x here is_rid false over =
          fetch_all-opened K rounds p i n x rest right s leaf chain here is_rid over enough
