-- ===== src/Optimizer/Decided.antt =====
-- A conjunction with a constant that decides it, rewritten by ConjunctionSimplificationRule.
use miniob4cqu_db_exp.Common.{
  Bool, true, false, ◌≡◌, refl, ap, ◌∙◌, Rc, Option, none, some, ◌⊎◌, inl, inr, not, if◌then◌else◌,
  Bool-cases, arith,
}
use miniob4cqu_db_exp.Optimizer.Expression.{
  ValueClass, ConjunctionType, Outcome, failed, got, Expression, Expressions, no_child, child,
  conjunction, is_and, decides, after_child, get_value, children_value,
}
use miniob4cqu_db_exp.Optimizer.Conjunction.{
  try_to_get_bool_constant, push_child, front, simplify, rewrite,
}
use miniob4cqu_db_exp.Optimizer.Constants.{truth, decides_now, has_decider, constant-value}

module _ (C : ValueClass) where
  open C use {Value, Tuple, is_boolean, get_boolean, of_boolean, get-of}

  abbrev first_of : Option Bool → Expression C → Option (Expression C) → Option (Expression C)
  first_of none e later = some e
  first_of (some b) e later = later

  -- The first child that the loop keeps or stops at.
  abbrev pub first_kept : ConjunctionType → Expressions C → Option (Expression C)
  first_kept t no_child = none
  first_kept t (child e es) =
      if decides_now C t (try_to_get_bool_constant C e)
      then some e
      else first_of (try_to_get_bool_constant C e) e (first_kept t es)

  front-push :
      (kept : Expressions C) (e d : Expression C) → front C (push_child C kept e) d ≡ front C kept e
  front-push no_child e d = refl
  front-push (child x kept) e d = refl

  -- Where the loop stops, from the kept children and those that are left.
  abbrev Stops : ConjunctionType → Expressions C → Expressions C → Type 0
  Stops t kept es =
      (e : Expression C) × (first_kept t es ≡ some e)
      × (simplify C t kept es ≡ inr (front C kept e))

  Stops-child :
      (t : ConjunctionType) (kept : Expressions C) (e : Expression C) (es : Expressions C)
      → has_decider C t (child e es) ≡ true
      → ((kept : Expressions C) → has_decider C t es ≡ true → Stops t kept es)
      → (o : Option Bool) → try_to_get_bool_constant C e ≡ o
      → Stops t kept (child e es)
  unfolding simplify
  Stops-child t kept e es h later none k =
      let (d, first, run) = later (push_child C kept e) (rw k at h) in
      (e, rw k refl, rw (k, simplify) (run ∙ ap inr (front-push kept e d)))
  Stops-child t kept e es h later (some b) k = elim (Bool-cases (decides C t b)) [
    | inl stops ↦ (e, rw (k, stops) refl, rw (k, stops, simplify) refl)
    | inr passes ↦
        let (d, first, run) = later kept (rw (k, passes) at h) in
        (d, rw (k, passes) first, rw (k, passes, simplify) run)
  ]

  simplify-Stops :
      (t : ConjunctionType) (kept es : Expressions C) → has_decider C t es ≡ true → Stops t kept es
  simplify-Stops t kept no_child h = absurd (ground (arith, h))
  simplify-Stops t kept (child e es) h =
      Stops-child t kept e es h (λ kept. simplify-Stops t kept es) _ refl

  -- A conjunction whose evaluation does not fail has the truth that decides it.
  abbrev pub IsDecided : ConjunctionType → Outcome C → Type 0
  IsDecided t o = ((rc : Rc) × (o ≡ failed rc)) ⊎ (truth C o ≡ inr (not (is_and t)))

  decides-truth : (t : ConjunctionType) (b : Bool) → decides C t b ≡ true → b ≡ not (is_and t)
  decides-truth ConjunctionType.and_type b h = ground (arith, h)
  decides-truth ConjunctionType.or_type b h = ground (arith, h)

  after_child-IsDecided :
      (t : ConjunctionType) (o rest : Outcome C)
      → IsDecided t rest
      → IsDecided t (after_child C t o rest)
  after_child-IsDecided t (failed rc) rest d = inl (rc, refl)
  after_child-IsDecided t (got v) rest d = elim (Bool-cases (decides C t (get_boolean v))) [
    | inl stops ↦ inr (
        rw stops (ap inr (get-of (get_boolean v)) ∙ ap inr (decides-truth t (get_boolean v) stops)))
    | inr passes ↦ rw passes d
  ]

  IsDecided-child :
      (t : ConjunctionType) (e : Expression C) (es : Expressions C) (tuple : Tuple)
      → has_decider C t (child e es) ≡ true
      → (has_decider C t es ≡ true → IsDecided t (children_value C t es tuple))
      → (o : Option Bool) → try_to_get_bool_constant C e ≡ o
      → IsDecided t (children_value C t (child e es) tuple)
  unfolding get_value
  IsDecided-child t e es tuple h later none k =
      after_child-IsDecided t (get_value C e tuple) _ (later (rw k at h))
  IsDecided-child t e es tuple h later (some b) k = elim (Bool-cases (decides C t b)) [
    | inl stops ↦
        let (v, value, is_b) = constant-value C e b tuple k in
        inr (rw (value, is_b, stops) (ap inr (get-of b) ∙ ap inr (decides-truth t b stops)))
    | inr passes ↦ after_child-IsDecided t (get_value C e tuple) _ (later (rw (k, passes) at h))
  ]

  children-IsDecided :
      (t : ConjunctionType) (es : Expressions C) (tuple : Tuple)
      → has_decider C t es ≡ true
      → IsDecided t (children_value C t es tuple)
  unfolding get_value
  children-IsDecided t no_child tuple h = absurd (ground (arith, h))
  children-IsDecided t (child e es) tuple h =
      IsDecided-child t e es tuple h (children-IsDecided t es tuple) _ refl

  -- A conjunction that has a constant that decides it is false for AND and true for OR, unless the
  -- evaluation of a child fails. The rule rewrites it, and reports no change, to the first of its
  -- children that is not a constant without effect, which need not be the constant that decides.
  pub rewrite-IsDecided :
      (t : ConjunctionType) (es : Expressions C) (change_made : Bool) (tuple : Tuple)
      → has_decider C t es ≡ true
      → IsDecided t (get_value C (conjunction t es) tuple)
        × (e : Expression C) × (first_kept t es ≡ some e)
        × (rewrite C (conjunction t es) change_made ≡ (Rc.success, e, false))
  unfolding rewrite get_value
  rewrite-IsDecided t no_child change_made tuple h = absurd (ground (arith, h))
  rewrite-IsDecided t (child e es) change_made tuple h =
      let (d, first, run) = simplify-Stops t no_child (child e es) h in
      (children-IsDecided t (child e es) tuple h, d, first, rw run refl)
