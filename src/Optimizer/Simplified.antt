-- ===== src/Optimizer/Simplified.antt =====
-- A conjunction with no constant that decides it, rewritten by ConjunctionSimplificationRule.
use miniob4cqu_db_exp.Common.{
  Bool, true, false, ◌≡◌, refl, sym, ap, subst, ◌∙◌, Rc, Option, none, some, ◌⊎◌, inl, inr,
  Bool-cases, arith,
}
use miniob4cqu_db_exp.Optimizer.Expression.{
  ValueClass, ConjunctionType, Outcome, failed, got, Expression, Expressions, no_child, child,
  conjunction, is_and, decides, after_child, get_value, children_value,
}
use miniob4cqu_db_exp.Optimizer.Conjunction.{
  try_to_get_bool_constant, push_child, simplify, after_loop, rewrite,
}
use miniob4cqu_db_exp.Optimizer.Constants.{
  truth, has_decider, constant-value, unless_constant, without_constants,
}

module _ (C : ValueClass) where
  open C use {Value, Tuple, is_boolean, get_boolean, of_boolean, get-of}

  abbrev append_children : Expressions C → Expressions C → Expressions C
  append_children no_child es = es
  append_children (child d kept) es = child d (append_children kept es)

  append-push :
      (kept : Expressions C) (e : Expression C) (es : Expressions C)
      → append_children (push_child C kept e) es ≡ append_children kept (child e es)
  append-push no_child e es = refl
  append-push (child d kept) e es = ap (child d) (append-push kept e es)

  append-none : (kept : Expressions C) → append_children kept no_child ≡ kept
  append-none no_child = refl
  append-none (child d kept) = ap (child d) (append-none kept)

  skip-constant :
      (t : ConjunctionType) (kept : Expressions C) (e : Expression C) (es : Expressions C)
      (b : Bool) (tuple : Tuple)
      → try_to_get_bool_constant C e ≡ some b
      → decides C t b ≡ false
      → children_value C t (append_children kept (child e es)) tuple
        ≡ children_value C t (append_children kept es) tuple
  unfolding get_value
  skip-constant t no_child e es b tuple k passes =
      let (v, value, is_b) = constant-value C e b tuple k in rw (value, is_b, passes) refl
  skip-constant t (child d kept) e es b tuple k passes =
      ap (after_child C t (get_value C d tuple)) (skip-constant t kept e es b tuple k passes)

  -- The loop keeps the children that are no constants, and their conjunction has the value of all.
  abbrev Keeps : ConjunctionType → Expressions C → Expressions C → Type 0
  Keeps t kept es =
      (cs : Expressions C) × (simplify C t kept es ≡ inl cs)
      × (cs ≡ append_children kept (without_constants C es))
      × ((tuple : Tuple)
          → children_value C t cs tuple ≡ children_value C t (append_children kept es) tuple)

  Keeps-child :
      (t : ConjunctionType) (kept : Expressions C) (e : Expression C) (es : Expressions C)
      → has_decider C t (child e es) ≡ false
      → ((kept : Expressions C) → has_decider C t es ≡ false → Keeps t kept es)
      → (o : Option Bool) → try_to_get_bool_constant C e ≡ o
      → Keeps t kept (child e es)
  unfolding simplify
  Keeps-child t kept e es h later none k =
      let (cs, run, is, same) = later (push_child C kept e) (rw k at h) in
      (
        cs,
        rw (k, simplify) run,
        is
            ∙ append-push kept e (without_constants C es)
            ∙ ap (λ o. append_children kept (unless_constant C o e (without_constants C es)))
                (sym k),
        λ tuple. same tuple ∙ ap (λ x. children_value C t x tuple) (append-push kept e es),
      )
  Keeps-child t kept e es h later (some b) k = elim (Bool-cases (decides C t b)) [
    | inl stops ↦ absurd (ground (arith, h, k, stops))
    | inr passes ↦
        let (cs, run, is, same) = later kept (rw (k, passes) at h) in
        (
          cs,
          rw (k, passes, simplify) run,
          is
              ∙ ap (λ o. append_children kept (unless_constant C o e (without_constants C es)))
                  (sym k),
          λ tuple. same tuple ∙ sym (skip-constant t kept e es b tuple k passes),
        )
  ]

  simplify-Keeps :
      (t : ConjunctionType) (kept es : Expressions C) → has_decider C t es ≡ false → Keeps t kept es
  unfolding simplify
  simplify-Keeps t kept no_child h = (
    kept,
    refl,
    sym (append-none kept),
    λ tuple. ap (λ x. children_value C t x tuple) (sym (append-none kept)),
  )
  simplify-Keeps t kept (child e es) h =
      Keeps-child t kept e es h (λ kept. simplify-Keeps t kept es) _ refl

  one_child :
      (t : ConjunctionType) (o : Outcome C)
      → truth C o ≡ truth C (after_child C t o (got (of_boolean (is_and t))))
  one_child t (failed rc) = refl
  one_child ConjunctionType.and_type (got v) = ground (arith, get-of true, get-of (get_boolean v))
  one_child ConjunctionType.or_type (got v) = ground (arith, get-of false, get-of (get_boolean v))

  abbrev SameTruth : ConjunctionType → Expressions C → Tuple → Expression C → Type 0
  SameTruth t es tuple out =
      (truth C (get_value C out tuple) ≡ truth C (get_value C (conjunction t es) tuple))
      ⊎ ((t ≡ ConjunctionType.or_type)
          × (out ≡ conjunction t no_child)
          × (truth C (get_value C out tuple) ≡ inr true)
          × (truth C (get_value C (conjunction t es) tuple) ≡ inr false))

  empty-truth :
      (t : ConjunctionType) (es : Expressions C) (tuple : Tuple)
      → children_value C t no_child tuple ≡ children_value C t es tuple
      → SameTruth t es tuple (conjunction t no_child)
  unfolding get_value
  empty-truth t no_child tuple same = inl refl
  empty-truth ConjunctionType.and_type (child e es) tuple same = inl (ap (truth C) same)
  empty-truth ConjunctionType.or_type (child e es) tuple same =
      inr (refl, refl, ap inr (get-of true), sym (ap (truth C) same) ∙ ap inr (get-of false))

  -- What the rule returns for the kept children `cs`.
  abbrev pub rebuilt : ConjunctionType → Expressions C → Expression C × Bool
  rebuilt t no_child = (conjunction t no_child, false)
  rebuilt t (child e no_child) = (e, true)
  rebuilt t (child e (child d cs)) = (conjunction t (child e (child d cs)), false)

  rebuilt-after_loop :
      (t : ConjunctionType) (cs : Expressions C)
      → after_loop C t (inl cs) ≡ (Rc.success, (rebuilt t cs).0, (rebuilt t cs).1)
  rebuilt-after_loop t no_child = refl
  rebuilt-after_loop t (child e no_child) = refl
  rebuilt-after_loop t (child e (child d cs)) = refl

  kept-truth :
      (t : ConjunctionType) (x : Expression C) (es cs : Expressions C) (tuple : Tuple)
      → children_value C t cs tuple ≡ children_value C t (child x es) tuple
      → SameTruth t (child x es) tuple (rebuilt t cs).0
  unfolding get_value
  kept-truth t x es no_child tuple same = empty-truth t (child x es) tuple same
  kept-truth t x es (child e no_child) tuple same =
      inl (one_child t (get_value C e tuple) ∙ ap (truth C) same)
  kept-truth t x es (child e (child d cs)) tuple same = inl (ap (truth C) same)

  -- The rule on a conjunction that has no constant that decides. It drops the constants among the
  -- children; of the others, one alone stands for the conjunction, and only then a change is
  -- reported, and none or several are its children. As a condition, the result has the truth of the
  -- conjunction, or its error, on every tuple; the one exception is an OR all of whose children are
  -- dropped: it is false, and the empty OR that is left is true.
  pub rewrite-truth :
      (t : ConjunctionType) (es : Expressions C) (change_made : Bool) (tuple : Tuple)
      → has_decider C t es ≡ false
      → let (out, change) = rebuilt t (without_constants C es) in
        (rewrite C (conjunction t es) change_made ≡ (Rc.success, out, change))
        × ((truth C (get_value C out tuple) ≡ truth C (get_value C (conjunction t es) tuple))
            ⊎ ((t ≡ ConjunctionType.or_type)
                × (out ≡ conjunction t no_child)
                × (truth C (get_value C out tuple) ≡ inr true)
                × (truth C (get_value C (conjunction t es) tuple) ≡ inr false)))
  unfolding rewrite simplify
  rewrite-truth t no_child change_made tuple h = (refl, inl refl)
  rewrite-truth t (child x es) change_made tuple h =
      let (cs, run, is, same) = simplify-Keeps t no_child (child x es) h in
      (
        ap (after_loop C t) (run ∙ ap inl is)
            ∙ rebuilt-after_loop t (without_constants C (child x es)),
        subst (λ l. SameTruth t (child x es) tuple (rebuilt t l).0) is
            (kept-truth t x es cs tuple (same tuple)),
      )
