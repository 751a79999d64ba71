-- ===== src/Index/Fetch.antt =====
-- What all steps of a scanner give.
use miniob4cqu_db_exp.Common.{
  ℕ, zero, suc, ◌+◌, ◌<◌, ◌≡◌, refl, sym, ap, ◌∙◌, subst, Bool, true, false, Option, none, some,
  List, [], ◌∷◌, ◌++◌, length, length-append, drop, get_elem?, if◌then◌else◌, arith,
}
use miniob4cqu_db_exp.Common.Step.{Step, Outcome, done, and_then, return, ◌>>=◌}
use miniob4cqu_db_exp.Index.Page.{IndexKeys, Key, Item, Node, Rid, Index}
use miniob4cqu_db_exp.Index.Leaves.{page_items, flatten}
use miniob4cqu_db_exp.Index.Scanner.{Scanner, fetch_item, next_from, next_entry, fetch_all}
use miniob4cqu_db_exp.Index.Chain.{
  IsRid, rid_in, IsLeaf, IsChain, past, rids_to, drop-get, fetch_item-rid,
}
use miniob4cqu_db_exp.Index.NextEntry.{Position, Gives, next_from-Gives, chain-length}

module _ (K : IndexKeys) where
  abbrev entry_at :
      ℕ → Scanner K → Index K → Option ℕ → Bool → Outcome (Index K) (Option Rid × Scanner K)
  entry_at fuel scanner s none emitted = done (none, scanner) s
  entry_at fuel scanner s (some p) false =
      (do
        r ← fetch_item K p scanner.index
        return (some r, record scanner { first_emitted = true }))
        s
  entry_at fuel scanner s (some p) true = next_from K fuel p (scanner.index + 1) scanner s

  pub next_entry-entry_at :
      (fuel : ℕ) (scanner : Scanner K) (s : Index K)
      → next_entry K fuel scanner s ≡ entry_at fuel scanner s scanner.current scanner.first_emitted
  unfolding next_entry
  next_entry-entry_at fuel scanner s = by_scanner scanner.current scanner.first_emitted
    where
      by_scanner :
          (current : Option ℕ) (emitted : Bool)
          → (elim current as (λ x. Step (Index K) (Option Rid × Scanner K)) [
            | none ↦ return (none, scanner)
            | some p ↦ elim emitted as (λ x. Step (Index K) (Option Rid × Scanner K)) [
              | false ↦ do
                r ← fetch_item K p scanner.index
                return (some r, record scanner { first_emitted = true })
              | true ↦ next_from K fuel p (scanner.index + 1) scanner
            ]
          ])
              s
            ≡ entry_at fuel scanner s current emitted
      by_scanner none emitted = refl
      by_scanner (some p) false = refl
      by_scanner (some p) true = refl

  Position-next :
      (fuel : ℕ) (right : Option (Key K)) (scanner : Scanner K) (s : Index K)
      (items : List (Item K))
      → Position K s right scanner items
      → length items < fuel
      → Gives K (next_entry K fuel scanner s) right s items
  Position-next fuel right scanner s items pos enough =
      subst (λ r. Gives K r right s items)
        (sym (
          next_entry-entry_at fuel scanner s
          ∙ ap (λ c. entry_at fuel scanner s c scanner.first_emitted) pos.current
          ∙ ap (entry_at fuel scanner s (some pos.page)) pos.emitted))
        (subst (λ r. Gives K (entry_at fuel scanner s (some pos.page) true) r s items) pos.right_end
          (subst (Gives K (entry_at fuel scanner s (some pos.page) true) scanner.right_key s)
            (sym same)
            (next_from-Gives K fuel pos.page (scanner.index + 1) pos.rest scanner s pos.chain room
              pos.emitted)))
    where
      same :
          items
          ≡ drop (scanner.index + 1) (page_items K (s.pages pos.page)) ++ flatten K s.pages pos.rest
      same =
          pos.ahead
          ∙ ap (λ page. drop (scanner.index + 1) (page_items K page) ++ flatten K s.pages pos.rest)
              (sym pos.here)

      room : length pos.rest < fuel
      room = ground (
        arith,
        enough,
        ap length same,
        length-append (drop (scanner.index + 1) (page_items K (s.pages pos.page)))
            (flatten K s.pages pos.rest),
        chain-length K s.pages pos.page pos.rest pos.chain,
      )

  abbrev gathered : ℕ → Option Rid × Scanner K → Step (Index K) (List Rid)
  gathered fuel next = elim next.0 [
    | none ↦ return []
    | some r ↦ do rids ← fetch_all K fuel next.1; return (r ∷ rids)
  ]

  Gives-gathered :
      (fuel : ℕ) (right : Option (Key K)) (run : Outcome (Index K) (Option Rid × Scanner K))
      (s : Index K) (items : List (Item K))
      → Gives K run right s items
      → ((scanner : Scanner K) (x : Item K) (later : List (Item K))
          → items ≡ x ∷ later
          → Position K s right scanner later
          → fetch_all K fuel scanner s ≡ done (rids_to K right later) s)
      → and_then run (gathered fuel) ≡ done (rids_to K right items) s
  Gives-gathered fuel right run s [] (scanner, is, more) later =
      ap (λ r. and_then r (gathered fuel)) is
  Gives-gathered fuel right run s (x ∷ items) (scanner, is, more) later =
      ap (λ r. and_then r (gathered fuel)) is ∙ by_past (past K right x) refl
    where
      by_past :
          (b : Bool)
          → past K right x ≡ b
          → gathered fuel (if b then none else some (rid_in K x), scanner) s
            ≡ done (if b then [] else rid_in K x ∷ rids_to K right items) s
      by_past true over = refl
      by_past false over =
          ap (λ r. and_then r (λ rids. return (rid_in K x ∷ rids)))
            (later scanner x items refl (more x items refl over))

  pub fetch_all-rids_to :
      (fuel : ℕ) (right : Option (Key K)) (scanner : Scanner K) (s : Index K)
      (items : List (Item K))
      → Position K s right scanner items
      → length items < fuel
      → fetch_all K fuel scanner s ≡ done (rids_to K right items) s
  unfolding fetch_all
  fetch_all-rids_to zero right scanner s items pos enough = absurd (omega arith)
  fetch_all-rids_to (suc fuel) right scanner s items pos enough =
      Gives-gathered fuel right (next_entry K (suc fuel) scanner s) s items
        (Position-next (suc fuel) right scanner s items pos enough)
        (λ scanner' x later same pos'.
          fetch_all-rids_to fuel right scanner' s later pos'
            (ground (arith, enough, ap length same)))

  -- The first item, at which a scanner that is just open stands.
  pub fetch_all-opened :
      (fuel p i : ℕ) (n : Node K) (x : Item K) (rest : List ℕ) (right : Option (Key K))
      (s : Index K)
      → IsLeaf K s.pages p n
      → IsChain K s.pages p rest
      → get_elem? n.items i ≡ some x
      → IsRid K x
      → past K right x ≡ false
      → length (drop i n.items ++ flatten K s.pages rest) < fuel
      → fetch_all K fuel
          (record { current = some p; index = i; right_key = right; first_emitted = false })
          s
        ≡ done (rids_to K right (drop i n.items ++ flatten K s.pages rest)) s
  unfolding fetch_all
  fetch_all-opened zero p i n x rest right s leaf chain here is_rid within enough =
      absurd (omega arith)
  fetch_all-opened (suc fuel) p i n x rest right s leaf chain here is_rid within enough =
      ap (λ r. and_then r (gathered fuel))
        (next_entry-entry_at (suc fuel) opened s
          ∙ ap (λ r. and_then r (λ r. return (some r, emitted)))
              (fetch_item-rid K p i n x s leaf.0 here is_rid))
      ∙ ap (λ r. and_then r (λ rids. return (rid_in K x ∷ rids)))
          (fetch_all-rids_to fuel right emitted s later at_next
            (ground (arith, enough, ap length same)))
      ∙ ap (λ l. done l s)
          (sym (
            ap (rids_to K right) same
            ∙ ap (λ b. if b then [] else rid_in K x ∷ rids_to K right later) within))
    where
      opened : Scanner K
      opened = record { current = some p; index = i; right_key = right; first_emitted = false }

      emitted : Scanner K
      emitted = record { current = some p; index = i; right_key = right; first_emitted = true }

      later : List (Item K)
      later = drop (i + 1) n.items ++ flatten K s.pages rest

      same : drop i n.items ++ flatten K s.pages rest ≡ x ∷ later
      same = ap (λ l. l ++ flatten K s.pages rest) (drop-get K n.items i x here)

      at_next : Position K s right emitted later
      at_next = record {
        page = p;
        rest = rest;
        node_at = n;
        current = refl;
        emitted = refl;
        right_end = refl;
        here = leaf.0;
        chain = chain;
        ahead = refl;
      }
