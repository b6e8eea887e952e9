-- ===== src/Expr/Lookup/Comparisons.antt =====
-- The comparison operators of the table have values of the type that they declare.
use bitpunch.Base.{refl, inl}
use bitpunch.Expr.Values.{value_type}
use bitpunch.Expr.Operators.Items.{op_eq, op_ne, op_lt, op_le, op_gt, op_ge}
use bitpunch.Expr.Operators.Comparisons.{
  match_eq_integer_integer, match_eq_boolean_boolean, match_eq_string_string,
  match_ne_integer_integer, match_ne_boolean_boolean, match_ne_string_string,
  match_lt_integer_integer, match_le_integer_integer, match_gt_integer_integer,
  match_ge_integer_integer, expr_evalop_eq_integer_integer, expr_evalop_eq_boolean_boolean,
  expr_evalop_eq_string_string, expr_evalop_ne_integer_integer, expr_evalop_ne_boolean_boolean,
  expr_evalop_ne_string_string, expr_evalop_lt_integer_integer, expr_evalop_le_integer_integer,
  expr_evalop_gt_integer_integer, expr_evalop_ge_integer_integer,
}
use bitpunch.Expr.Trees.{n_operands}
use bitpunch.Expr.Lookup.{IsSound}
use bitpunch.Expr.Lookup.Typed.{boolean_set, integers-IsSound, booleans-IsSound, strings-IsSound}

pub match_eq_integer_integer-IsSound : IsSound match_eq_integer_integer
unfolding match_eq_integer_integer expr_evalop_eq_integer_integer value_type n_operands
match_eq_integer_integer-IsSound =
    integers-IsSound op_eq match_eq_integer_integer.evaluator refl
      (λ a b. inl (_, refl, refl, boolean_set))

pub match_eq_boolean_boolean-IsSound : IsSound match_eq_boolean_boolean
unfolding match_eq_boolean_boolean expr_evalop_eq_boolean_boolean value_type n_operands
match_eq_boolean_boolean-IsSound =
    booleans-IsSound op_eq match_eq_boolean_boolean.evaluator refl
      (λ a b. inl (_, refl, refl, boolean_set))

pub match_eq_string_string-IsSound : IsSound match_eq_string_string
unfolding match_eq_string_string expr_evalop_eq_string_string value_type n_operands
match_eq_string_string-IsSound =
    strings-IsSound op_eq match_eq_string_string.evaluator refl
      (λ a b. inl (_, refl, refl, boolean_set))

pub match_ne_integer_integer-IsSound : IsSound match_ne_integer_integer
unfolding match_ne_integer_integer expr_evalop_ne_integer_integer value_type n_operands
match_ne_integer_integer-IsSound =
    integers-IsSound op_ne match_ne_integer_integer.evaluator refl
      (λ a b. inl (_, refl, refl, boolean_set))

pub match_ne_boolean_boolean-IsSound : IsSound match_ne_boolean_boolean
unfolding match_ne_boolean_boolean expr_evalop_ne_boolean_boolean value_type n_operands
match_ne_boolean_boolean-IsSound =
    booleans-IsSound op_ne match_ne_boolean_boolean.evaluator refl
      (λ a b. inl (_, refl, refl, boolean_set))

pub match_ne_string_string-IsSound : IsSound match_ne_string_string
unfolding match_ne_string_string expr_evalop_ne_string_string value_type n_operands
match_ne_string_string-IsSound =
    strings-IsSound op_ne match_ne_string_string.evaluator refl
      (λ a b. inl (_, refl, refl, boolean_set))

pub match_lt_integer_integer-IsSound : IsSound match_lt_integer_integer
unfolding match_lt_integer_integer expr_evalop_lt_integer_integer value_type n_operands
match_lt_integer_integer-IsSound =
    integers-IsSound op_lt match_lt_integer_integer.evaluator refl
      (λ a b. inl (_, refl, refl, boolean_set))

pub match_le_integer_integer-IsSound : IsSound match_le_integer_integer
unfolding match_le_integer_integer expr_evalop_le_integer_integer value_type n_operands
match_le_integer_integer-IsSound =
    integers-IsSound op_le match_le_integer_integer.evaluator refl
      (λ a b. inl (_, refl, refl, boolean_set))

pub match_gt_integer_integer-IsSound : IsSound match_gt_integer_integer
unfolding match_gt_integer_integer expr_evalop_gt_integer_integer value_type n_operands
match_gt_integer_integer-IsSound =
    integers-IsSound op_gt match_gt_integer_integer.evaluator refl
      (λ a b. inl (_, refl, refl, boolean_set))

pub match_ge_integer_integer-IsSound : IsSound match_ge_integer_integer
unfolding match_ge_integer_integer expr_evalop_ge_integer_integer value_type n_operands
match_ge_integer_integer-IsSound =
    integers-IsSound op_ge match_ge_integer_integer.evaluator refl
      (λ a b. inl (_, refl, refl, boolean_set))
