-- ===== src/Expr/Operators/Logic.antt =====
-- libbitpunch/src/core/expr.c: the logical and the bitwise operators.
use bitpunch.Base.{◌-◌, ◌^◌, List, [], ◌∷◌, not, ◌&&◌, ◌||◌, bit_and, bit_or, bit_xor}
use bitpunch.Base.Words.{to_u64, to_i64}
use bitpunch.Expr.Values.{Value, integer, boolean, type_integer, type_boolean, c_int, is_true}
use bitpunch.Expr.Operators.Items.{
  Outcome, done, mistyped, MatchItem, op_lor, op_land, op_lnot, op_bwor, op_bwand, op_bwxor,
  op_bwnot,
}

unfoldable pub expr_evalop_lor_boolean_boolean : List Value → Outcome
unfolding c_int is_true
expr_evalop_lor_boolean_boolean ((boolean a) ∷ (boolean b) ∷ []) =
    done (boolean (c_int (is_true a || is_true b)))
expr_evalop_lor_boolean_boolean _ = mistyped

unfoldable pub match_lor_boolean_boolean : MatchItem
unfolding expr_evalop_lor_boolean_boolean
match_lor_boolean_boolean = record {
  op_type = op_lor;
  n_opd = 2;
  opd_types = type_boolean ∷ type_boolean ∷ [];
  evaluator = record { res_type_mask = type_boolean; eval_fn = expr_evalop_lor_boolean_boolean };
}

unfoldable pub expr_evalop_land_boolean_boolean : List Value → Outcome
unfolding c_int is_true
expr_evalop_land_boolean_boolean ((boolean a) ∷ (boolean b) ∷ []) =
    done (boolean (c_int (is_true a && is_true b)))
expr_evalop_land_boolean_boolean _ = mistyped

unfoldable pub match_land_boolean_boolean : MatchItem
unfolding expr_evalop_land_boolean_boolean
match_land_boolean_boolean = record {
  op_type = op_land;
  n_opd = 2;
  opd_types = type_boolean ∷ type_boolean ∷ [];
  evaluator = record { res_type_mask = type_boolean; eval_fn = expr_evalop_land_boolean_boolean };
}

unfoldable pub expr_evalop_lnot_boolean : List Value → Outcome
unfolding c_int is_true
expr_evalop_lnot_boolean ((boolean a) ∷ []) = done (boolean (c_int (not (is_true a))))
expr_evalop_lnot_boolean _ = mistyped

unfoldable pub match_lnot_boolean : MatchItem
unfolding expr_evalop_lnot_boolean
match_lnot_boolean = record {
  op_type = op_lnot;
  n_opd = 1;
  opd_types = type_boolean ∷ [];
  evaluator = record { res_type_mask = type_boolean; eval_fn = expr_evalop_lnot_boolean };
}

unfoldable pub expr_evalop_bwor_integer_integer : List Value → Outcome
unfolding to_u64 to_i64
expr_evalop_bwor_integer_integer ((integer a) ∷ (integer b) ∷ []) =
    done (integer (to_i64 (bit_or (to_u64 a) (to_u64 b))))
expr_evalop_bwor_integer_integer _ = mistyped

unfoldable pub match_bwor_integer_integer : MatchItem
unfolding expr_evalop_bwor_integer_integer
match_bwor_integer_integer = record {
  op_type = op_bwor;
  n_opd = 2;
  opd_types = type_integer ∷ type_integer ∷ [];
  evaluator = record { res_type_mask = type_integer; eval_fn = expr_evalop_bwor_integer_integer };
}

unfoldable pub expr_evalop_bwand_integer_integer : List Value → Outcome
unfolding to_u64 to_i64
expr_evalop_bwand_integer_integer ((integer a) ∷ (integer b) ∷ []) =
    done (integer (to_i64 (bit_and (to_u64 a) (to_u64 b))))
expr_evalop_bwand_integer_integer _ = mistyped

unfoldable pub match_bwand_integer_integer : MatchItem
unfolding expr_evalop_bwand_integer_integer
match_bwand_integer_integer = record {
  op_type = op_bwand;
  n_opd = 2;
  opd_types = type_integer ∷ type_integer ∷ [];
  evaluator = record { res_type_mask = type_integer; eval_fn = expr_evalop_bwand_integer_integer };
}

unfoldable pub expr_evalop_bwxor_integer_integer : List Value → Outcome
unfolding to_u64 to_i64
expr_evalop_bwxor_integer_integer ((integer a) ∷ (integer b) ∷ []) =
    done (integer (to_i64 (bit_xor (to_u64 a) (to_u64 b))))
expr_evalop_bwxor_integer_integer _ = mistyped

unfoldable pub match_bwxor_integer_integer : MatchItem
unfolding expr_evalop_bwxor_integer_integer
match_bwxor_integer_integer = record {
  op_type = op_bwxor;
  n_opd = 2;
  opd_types = type_integer ∷ type_integer ∷ [];
  evaluator = record { res_type_mask = type_integer; eval_fn = expr_evalop_bwxor_integer_integer };
}

unfoldable pub expr_evalop_bwnot_integer : List Value → Outcome
unfolding to_u64 to_i64
expr_evalop_bwnot_integer ((integer a) ∷ []) = done (integer (to_i64 (2 ^ 64 - 1 - to_u64 a)))
expr_evalop_bwnot_integer _ = mistyped

unfoldable pub match_bwnot_integer : MatchItem
unfolding expr_evalop_bwnot_integer
match_bwnot_integer = record {
  op_type = op_bwnot;
  n_opd = 1;
  opd_types = type_integer ∷ [];
  evaluator = record { res_type_mask = type_integer; eval_fn = expr_evalop_bwnot_integer };
}
