-- ===== src/Optimizer/Constants.antt =====
-- The constants among the children of a conjunction, and the truth of its value.
use miniob4cqu_db_exp.Common.{
  Bool, false, ◌≡◌, refl, Rc, Option, none, some, ◌⊎◌, inl, inr, ◌||◌, arith,
}
use miniob4cqu_db_exp.Optimizer.Expression.{
  ValueClass, ConjunctionType, Outcome, failed, got, Expression, Expressions, no_child, child,
  value_expr, conjunction, other_expr, decides, get_value,
}
use miniob4cqu_db_exp.Optimizer.Conjunction.{try_to_get_bool_constant}

module _ (C : ValueClass) where
  open C use {Value, Tuple, is_boolean, get_boolean, of_boolean, get-of}

  -- What a condition on the outcome sees: its error, or its truth.
  abbrev pub truth : Outcome C → Rc ⊎ Bool
  truth (failed rc) = inl rc
  truth (got v) = inr (get_boolean v)

  abbrev pub decides_now : ConjunctionType → Option Bool → Bool
  decides_now t none = false
  decides_now t (some b) = decides C t b

  -- A constant that decides stands among the children.
  abbrev pub has_decider : ConjunctionType → Expressions C → Bool
  has_decider t no_child = false
  has_decider t (child e es) = decides_now t (try_to_get_bool_constant C e) || has_decider t es

  -- The children that are no constants.
  abbrev pub unless_constant : Option Bool → Expression C → Expressions C → Expressions C
  unless_constant none e es = child e es
  unless_constant (some b) e es = es

  abbrev pub without_constants : Expressions C → Expressions C
  without_constants no_child = no_child
  without_constants (child e es) =
      unless_constant (try_to_get_bool_constant C e) e (without_constants es)

  pub constant-value :
      (e : Expression C) (b : Bool) (tuple : Tuple)
      → try_to_get_bool_constant C e ≡ some b
      → (v : Value) × (get_value C e tuple ≡ got v) × (get_boolean v ≡ b)
  unfolding try_to_get_bool_constant get_value
  constant-value (value_expr v) b tuple h = (v, refl, ground (arith, h))
  constant-value (conjunction t es) b tuple h = absurd (ground (arith, h))
  constant-value (other_expr f) b tuple h = absurd (ground (arith, h))
