-- ===== src/Optimizer/Values.antt =====
-- The type and the truth of a Value (src/observer/common/value.cpp), behind the interface of the
-- expressions. Floats are those of the language, with their comparison with EPSILON.
use miniob4cqu_db_exp.Common.{
  ℕ, Bool, true, false, ◌≡◌, refl, Option, none, some, List, ℤ, pos, eq_ℤ, not, ◌||◌,
}
use miniob4cqu_db_exp.Optimizer.Expression.{ValueClass}

pub record FloatClass : Type 1 where
  pub Float : Type 0
  -- `val >= EPSILON` and `val <= -EPSILON`
  pub above_epsilon : Float → Bool
  pub below_epsilon : Float → Bool

module _ (F : FloatClass) where
  open F use {Float, above_epsilon, below_epsilon}

  -- A value by its attr_type_; the characters are none for a null pointer.
  pub data Value : Type 0 where
    undefined : Value
    chars : Option (List ℕ) → Value
    ints : ℤ → Value
    floats : Float → Value
    vectors : List Float → Value
    booleans : Bool → Value

  -- The number in the text of CHARS has no effect: every branch returns true unless the pointer is
  -- null, for which `stof` throws.
  unfoldable pub get_boolean : Value → Bool
  get_boolean (chars none) = false
  get_boolean (chars (some text)) = true
  get_boolean (ints n) = not (eq_ℤ n (pos 0))
  get_boolean (floats x) = above_epsilon x || below_epsilon x
  get_boolean (booleans b) = b
  get_boolean _ = false

  -- `value_type() == AttrType::BOOLEANS` of a ValueExpr
  unfoldable pub is_boolean : Value → Bool
  is_boolean (booleans b) = true
  is_boolean _ = false

  unfoldable pub set_boolean : Bool → Value
  set_boolean b = booleans b

  pub get-set : (b : Bool) → get_boolean (set_boolean b) ≡ b
  unfolding get_boolean set_boolean
  get-set b = refl

  -- The values of a program whose tuples are `Tuple`.
  abbrev pub values : Type 0 → ValueClass
  values Tuple = record {
    Value = Value;
    Tuple = Tuple;
    is_boolean = is_boolean;
    get_boolean = get_boolean;
    of_boolean = set_boolean;
    get-of = get-set;
  }
