-- ===== src/Optimizer/Expression.antt =====
-- Expressions and their values (src/observer/sql/expr/expression.cpp). An expression that is
-- neither a constant nor a conjunction stands for its virtual `get_value`.
use miniob4cqu_db_exp.Common.{Bool, true, false, ◌≡◌, Rc, not, ◌&&◌, ◌||◌, if◌then◌else◌}

-- What the rules and conjunctions use of Value (common/value.h).
pub record ValueClass : Type 1 where
  pub Value : Type 0
  pub Tuple : Type 0
  pub is_boolean : Value → Bool
  pub get_boolean : Value → Bool
  pub of_boolean : Bool → Value
  pub get-of : (b : Bool) → get_boolean (of_boolean b) ≡ b

pub data ConjunctionType : Type 0 where
  and_type or_type : ConjunctionType

abbrev pub is_and : ConjunctionType → Bool
is_and ConjunctionType.and_type = true
is_and ConjunctionType.or_type = false

module _ (C : ValueClass) where
  open C use {Value, Tuple, get_boolean, of_boolean}

  pub data Outcome : Type 0 where
    failed : Rc → Outcome
    got : Value → Outcome

  mutual
    pub data Expression : Type 0 where
      value_expr : Value → Expression
      conjunction : ConjunctionType → Expressions → Expression
      other_expr : (Tuple → Outcome) → Expression

    pub data Expressions : Type 0 where
      no_child : Expressions
      child : Expression → Expressions → Expressions

  -- The value of a child that ends the loop over the children.
  abbrev pub decides : ConjunctionType → Bool → Bool
  decides t b = (is_and t && not b) || (not (is_and t) && b)

  -- One round of the loop over the children.
  abbrev pub after_child : ConjunctionType → Outcome → Outcome → Outcome
  after_child t (failed rc) rest = failed rc
  after_child t (got v) rest =
      if decides t (get_boolean v) then got (of_boolean (get_boolean v)) else rest

  unfoldable mutual
    pub get_value : Expression → Tuple → Outcome
    get_value (value_expr v) tuple = got v
    get_value (conjunction t no_child) tuple = got (of_boolean true)
    get_value (conjunction t (child e es)) tuple = children_value t (child e es) tuple
    get_value (other_expr f) tuple = f tuple

    pub children_value : ConjunctionType → Expressions → Tuple → Outcome
    children_value t no_child tuple = got (of_boolean (is_and t))
    children_value t (child e es) tuple =
        after_child t (get_value e tuple) (children_value t es tuple)
