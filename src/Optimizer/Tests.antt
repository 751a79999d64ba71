-- ===== src/Optimizer/Tests.antt =====
-- Conjunctions of a field and constants.
use miniob4cqu_db_exp.Common.{ℕ, true, false, pos, ◌≡◌, refl, Rc, some, ◌⊎◌, inr, ltb}
use miniob4cqu_db_exp.Optimizer.Expression.{
  ValueClass, ConjunctionType, got, Expression, Expressions, no_child, child, value_expr,
  conjunction, other_expr, get_value,
}
use miniob4cqu_db_exp.Optimizer.Values.{
  FloatClass, Value, ints, booleans, is_boolean, get_boolean, values,
}
use miniob4cqu_db_exp.Optimizer.Conjunction.{try_to_get_bool_constant, simplify, rewrite}
use miniob4cqu_db_exp.Optimizer.Constants.{truth, has_decider}
use miniob4cqu_db_exp.Optimizer.Decided.{first_kept, IsDecided, rewrite-IsDecided}
use miniob4cqu_db_exp.Optimizer.Simplified.{rewrite-truth}

abbrev no_floats : FloatClass
no_floats = record { Float = ℕ; above_epsilon = λ x. ltb 0 x; below_epsilon = λ x. false }

-- Tuples with one field.
abbrev fields : ValueClass
fields = values no_floats (Value no_floats)

abbrev column : Expression fields
column = other_expr (λ tuple. got tuple)

abbrev false_or_column : Expressions fields
false_or_column = child (value_expr (booleans false)) (child column no_child)

abbrev column_and_false : Expressions fields
column_and_false = child column (child (value_expr (booleans false)) no_child)

left_alone :
    rewrite fields (conjunction ConjunctionType.or_type false_or_column) false
    ≡ (Rc.success, column, true)
unfolding rewrite simplify try_to_get_bool_constant is_boolean get_boolean
left_alone = refl

-- `column AND false` is rewritten to `column`.
not_false :
    rewrite fields (conjunction ConjunctionType.and_type column_and_false) false
    ≡ (Rc.success, column, false)
unfolding rewrite simplify try_to_get_bool_constant is_boolean get_boolean
not_false = refl

-- `false OR false` is rewritten to an empty OR.
emptied :
    rewrite fields
      (conjunction ConjunctionType.or_type
        (child (value_expr (booleans false)) (child (value_expr (booleans false)) no_child)))
      false
    ≡ (Rc.success, conjunction ConjunctionType.or_type no_child, false)
unfolding rewrite simplify try_to_get_bool_constant is_boolean get_boolean
emptied = refl

no_decider : has_decider fields ConjunctionType.or_type false_or_column ≡ false
unfolding try_to_get_bool_constant is_boolean get_boolean
no_decider = refl

decider : has_decider fields ConjunctionType.and_type column_and_false ≡ true
unfolding try_to_get_bool_constant is_boolean get_boolean
decider = refl

rewrite-truth_example :
    (rewrite fields (conjunction ConjunctionType.or_type false_or_column) false
      ≡ (Rc.success, column, true))
    × ((truth fields (get_value fields column (ints (pos 5)))
          ≡ truth fields (
              get_value fields
                (conjunction ConjunctionType.or_type false_or_column)
                (ints (pos 5))))
        ⊎ ((ConjunctionType.or_type ≡ ConjunctionType.or_type)
            × (column ≡ conjunction ConjunctionType.or_type no_child)
            × (truth fields (get_value fields column (ints (pos 5))) ≡ inr true)
            × (truth fields (
                  get_value fields
                    (conjunction ConjunctionType.or_type false_or_column)
                    (ints (pos 5)))
                ≡ inr false)))
unfolding try_to_get_bool_constant is_boolean get_boolean
rewrite-truth_example =
    rewrite-truth fields ConjunctionType.or_type false_or_column false (ints (pos 5)) no_decider

rewrite-IsDecided_example :
    IsDecided fields ConjunctionType.and_type
      (get_value fields (conjunction ConjunctionType.and_type column_and_false) (ints (pos 5)))
    × (e : Expression fields) × (first_kept fields ConjunctionType.and_type column_and_false
        ≡ some e)
    × (rewrite fields (conjunction ConjunctionType.and_type column_and_false) false
        ≡ (Rc.success, e, false))
rewrite-IsDecided_example =
    rewrite-IsDecided fields ConjunctionType.and_type column_and_false false (ints (pos 5)) decider
