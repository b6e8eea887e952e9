-- ===== src/Expr/Lookup/Logic.antt =====
-- The operators on truth values and on bits have values of the type that they declare.
use bitpunch.Base.{refl, inl}
use bitpunch.Expr.Values.{value_type}
use bitpunch.Expr.Operators.Items.{op_lor, op_land, op_lnot, op_bwor, op_bwand, op_bwxor, op_bwnot}
use bitpunch.Expr.Operators.Logic.{
  match_lor_boolean_boolean, match_land_boolean_boolean, match_lnot_boolean,
  match_bwor_integer_integer, match_bwand_integer_integer, match_bwxor_integer_integer,
  match_bwnot_integer, expr_evalop_lor_boolean_boolean, expr_evalop_land_boolean_boolean,
  expr_evalop_lnot_boolean, expr_evalop_bwor_integer_integer, expr_evalop_bwand_integer_integer,
  expr_evalop_bwxor_integer_integer, expr_evalop_bwnot_integer,
}
use bitpunch.Expr.Trees.{n_operands}
use bitpunch.Expr.Lookup.{IsSound}
use bitpunch.Expr.Lookup.Typed.{
  integer_set, boolean_set, integer-IsSound, integers-IsSound, boolean-IsSound, booleans-IsSound,
}

pub match_lor_boolean_boolean-IsSound : IsSound match_lor_boolean_boolean
unfolding match_lor_boolean_boolean expr_evalop_lor_boolean_boolean value_type n_operands
match_lor_boolean_boolean-IsSound =
    booleans-IsSound op_lor match_lor_boolean_boolean.evaluator refl
      (λ a b. inl (_, refl, refl, boolean_set))

pub match_land_boolean_boolean-IsSound : IsSound match_land_boolean_boolean
unfolding match_land_boolean_boolean expr_evalop_land_boolean_boolean value_type n_operands
match_land_boolean_boolean-IsSound =
    booleans-IsSound op_land match_land_boolean_boolean.evaluator refl
      (λ a b. inl (_, refl, refl, boolean_set))

pub match_lnot_boolean-IsSound : IsSound match_lnot_boolean
unfolding match_lnot_boolean expr_evalop_lnot_boolean value_type n_operands
match_lnot_boolean-IsSound =
    boolean-IsSound op_lnot match_lnot_boolean.evaluator refl
      (λ a. inl (_, refl, refl, boolean_set))

pub match_bwor_integer_integer-IsSound : IsSound match_bwor_integer_integer
unfolding match_bwor_integer_integer expr_evalop_bwor_integer_integer value_type n_operands
match_bwor_integer_integer-IsSound =
    integers-IsSound op_bwor match_bwor_integer_integer.evaluator refl
      (λ a b. inl (_, refl, refl, integer_set))

pub match_bwand_integer_integer-IsSound : IsSound match_bwand_integer_integer
unfolding match_bwand_integer_integer expr_evalop_bwand_integer_integer value_type n_operands
match_bwand_integer_integer-IsSound =
    integers-IsSound op_bwand match_bwand_integer_integer.evaluator refl
      (λ a b. inl (_, refl, refl, integer_set))

pub match_bwxor_integer_integer-IsSound : IsSound match_bwxor_integer_integer
unfolding match_bwxor_integer_integer expr_evalop_bwxor_integer_integer value_type n_operands
match_bwxor_integer_integer-IsSound =
    integers-IsSound op_bwxor match_bwxor_integer_integer.evaluator refl
      (λ a b. inl (_, refl, refl, integer_set))

pub match_bwnot_integer-IsSound : IsSound match_bwnot_integer
unfolding match_bwnot_integer expr_evalop_bwnot_integer value_type n_operands
match_bwnot_integer-IsSound =
    integer-IsSound op_bwnot match_bwnot_integer.evaluator refl
      (λ a. inl (_, refl, refl, integer_set))
