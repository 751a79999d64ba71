-- ===== src/Optimizer/Conjunction.antt =====
-- ConjunctionSimplificationRule (src/observer/sql/optimizer/conjunction_simplification_rule.cpp).
use miniob4cqu_db_exp.Common.{
  Bool, true, false, Rc, Option, none, some, ◌⊎◌, inl, inr, if◌then◌else◌,
}
use miniob4cqu_db_exp.Optimizer.Expression.{
  ValueClass, ConjunctionType, Expression, Expressions, no_child, child, value_expr, conjunction,
  decides,
}

module _ (C : ValueClass) where
  open C use {is_boolean, get_boolean}

  unfoldable pub try_to_get_bool_constant : Expression C → Option Bool
  try_to_get_bool_constant (value_expr v) = if is_boolean v then some (get_boolean v) else none
  try_to_get_bool_constant _ = none

  abbrev pub push_child : Expressions C → Expression C → Expressions C
  push_child no_child e = child e no_child
  push_child (child d es) e = child d (push_child es e)

  -- `child_exprs.front()` of the children `kept` and, behind them, `e`.
  abbrev pub front : Expressions C → Expression C → Expression C
  front no_child e = e
  front (child d es) e = d

  -- The loop over the children: those it keeps, or the expression it returns at a constant that
  -- decides.
  unfoldable pub simplify :
      ConjunctionType → Expressions C → Expressions C → Expressions C ⊎ Expression C
  simplify t kept no_child = inl kept
  simplify t kept (child e es) = elim (try_to_get_bool_constant e) [
    | none ↦ simplify t (push_child kept e) es
    | some constant_value ↦ elim (decides C t constant_value) [
      | true ↦ inr (front kept e)
      | false ↦ simplify t kept es
    ]
  ]

  abbrev pub after_loop : ConjunctionType → Expressions C ⊎ Expression C → Rc × Expression C × Bool
  after_loop t (inr e) = (Rc.success, e, false)
  after_loop t (inl (child e no_child)) = (Rc.success, e, true)
  after_loop t (inl no_child) = (Rc.success, conjunction t no_child, false)
  after_loop t (inl (child e (child d es))) =
      (Rc.success, conjunction t (child e (child d es)), false)

  unfoldable pub rewrite : Expression C → Bool → Rc × Expression C × Bool
  unfolding simplify
  rewrite (conjunction t es) change_made = after_loop t (simplify t no_child es)
  rewrite e change_made = (Rc.success, e, change_made)
