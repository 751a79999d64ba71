-- ===== src/Index/Rollback.antt =====
-- Rollback of a mini transaction that removed items.
use mathlib.Core.List.{reverse-append, append_assoc}
use miniob4cqu_db_exp.Common.{
  ℕ, ◌≡◌, refl, ap, ◌∙◌, Option, none, List, [], ◌∷◌, ◌++◌, reverse, Option-cases, inl, inr,
}
use miniob4cqu_db_exp.Index.Page.{
  IndexKeys, Item, Page, unused, header, node, Index, LogEntry, node_remove,
}
use miniob4cqu_db_exp.Index.Replay.{rollback_entry, rollback_entries, rollback}

module _ (K : IndexKeys) where
  removal-crash :
      (p index : ℕ) (x : Item K) (items : List (Item K)) (s : Index K)
      → rollback_entry K (node_remove p index (x ∷ items)) s ≡ none
  unfolding rollback_entry
  removal-crash p index x items s = by_page (s.pages p)
    where
      by_page :
          (page : Page K)
          → elim page as (λ page. Option (Index K)) [ node n ↦ none | _ ↦ none ] ≡ none
      by_page unused = refl
      by_page (header root) = refl
      by_page (node n) = refl

  entries-crash :
      (before : List (LogEntry K)) (e : LogEntry K) (after : List (LogEntry K)) (s : Index K)
      → ((s : Index K) → rollback_entry K e s ≡ none)
      → rollback_entries K (before ++ e ∷ after) s ≡ none
  unfolding rollback_entries
  entries-crash [] e after s h = rw (h s, rollback_entries) refl
  entries-crash (d ∷ before) e after s h = elim (Option-cases (rollback_entry K d s)) [
    | inl stuck ↦ rw (stuck, rollback_entries) refl
    | inr (t, run) ↦ rw (run, rollback_entries) (entries-crash before e after t h)
  ]

  -- A mini transaction whose log has an entry for removed items, one at least, cannot be rolled
  -- back: the rollback copies the items to a null pointer, whatever came before and after.
  pub rollback-removal :
      (s : Index K) (before after : List (LogEntry K)) (p index : ℕ) (x : Item K)
      (items : List (Item K))
      → s.log ≡ before ++ node_remove p index (x ∷ items) ∷ after
      → rollback K s ≡ none
  unfolding rollback
  rollback-removal s before after p index x items h =
      rw (backwards, rollback)
        (rw
          (entries-crash (reverse after) (node_remove p index (x ∷ items)) (reverse before) s
            (removal-crash p index x items))
          refl)
    where
      backwards : reverse s.log ≡ reverse after ++ node_remove p index (x ∷ items) ∷ reverse before
      backwards =
          ap reverse h
          ∙ reverse-append before (node_remove p index (x ∷ items) ∷ after)
          ∙ ap (λ l. l ++ reverse before)
              (reverse-append (node_remove p index (x ∷ items) ∷ []) after)
          ∙ append_assoc (reverse after) (node_remove p index (x ∷ items) ∷ []) (reverse before)
