-- ===== src/Expr/Operators/Comparisons.antt =====
-- libbitpunch/src/core/expr.c: the comparison operators.
use bitpunch.Base.{List, [], ◌∷◌, bytes_eq, not}
use bitpunch.Base.Int.{ltb_ℤ, leb_ℤ, eqb_ℤ}
use bitpunch.Expr.Values.{
  Value, integer, boolean, string, type_integer, type_boolean, type_string, c_int,
}
use bitpunch.Expr.Operators.Items.{
  Outcome, done, mistyped, MatchItem, op_eq, op_ne, op_lt, op_le, op_gt, op_ge,
}

unfoldable pub expr_evalop_eq_integer_integer : List Value → Outcome
unfolding c_int
expr_evalop_eq_integer_integer ((integer a) ∷ (integer b) ∷ []) = done (boolean (c_int (eqb_ℤ a b)))
expr_evalop_eq_integer_integer _ = mistyped

unfoldable pub match_eq_integer_integer : MatchItem
unfolding expr_evalop_eq_integer_integer
match_eq_integer_integer = record {
  op_type = op_eq;
  n_opd = 2;
  opd_types = type_integer ∷ type_integer ∷ [];
  evaluator = record { res_type_mask = type_boolean; eval_fn = expr_evalop_eq_integer_integer };
}

unfoldable pub expr_evalop_eq_boolean_boolean : List Value → Outcome
unfolding c_int
expr_evalop_eq_boolean_boolean ((boolean a) ∷ (boolean b) ∷ []) = done (boolean (c_int (eqb_ℤ a b)))
expr_evalop_eq_boolean_boolean _ = mistyped

unfoldable pub match_eq_boolean_boolean : MatchItem
unfolding expr_evalop_eq_boolean_boolean
match_eq_boolean_boolean = record {
  op_type = op_eq;
  n_opd = 2;
  opd_types = type_boolean ∷ type_boolean ∷ [];
  evaluator = record { res_type_mask = type_boolean; eval_fn = expr_evalop_eq_boolean_boolean };
}

unfoldable pub expr_evalop_eq_string_string : List Value → Outcome
unfolding c_int bytes_eq
expr_evalop_eq_string_string ((string a) ∷ (string b) ∷ []) = done (boolean (c_int (bytes_eq a b)))
expr_evalop_eq_string_string _ = mistyped

unfoldable pub match_eq_string_string : MatchItem
unfolding expr_evalop_eq_string_string
match_eq_string_string = record {
  op_type = op_eq;
  n_opd = 2;
  opd_types = type_string ∷ type_string ∷ [];
  evaluator = record { res_type_mask = type_boolean; eval_fn = expr_evalop_eq_string_string };
}

unfoldable pub expr_evalop_ne_integer_integer : List Value → Outcome
unfolding c_int
expr_evalop_ne_integer_integer ((integer a) ∷ (integer b) ∷ []) =
    done (boolean (c_int (not (eqb_ℤ a b))))
expr_evalop_ne_integer_integer _ = mistyped

unfoldable pub match_ne_integer_integer : MatchItem
unfolding expr_evalop_ne_integer_integer
match_ne_integer_integer = record {
  op_type = op_ne;
  n_opd = 2;
  opd_types = type_integer ∷ type_integer ∷ [];
  evaluator = record { res_type_mask = type_boolean; eval_fn = expr_evalop_ne_integer_integer };
}

unfoldable pub expr_evalop_ne_boolean_boolean : List Value → Outcome
unfolding c_int
expr_evalop_ne_boolean_boolean ((boolean a) ∷ (boolean b) ∷ []) =
    done (boolean (c_int (not (eqb_ℤ a b))))
expr_evalop_ne_boolean_boolean _ = mistyped

unfoldable pub match_ne_boolean_boolean : MatchItem
unfolding expr_evalop_ne_boolean_boolean
match_ne_boolean_boolean = record {
  op_type = op_ne;
  n_opd = 2;
  opd_types = type_boolean ∷ type_boolean ∷ [];
  evaluator = record { res_type_mask = type_boolean; eval_fn = expr_evalop_ne_boolean_boolean };
}

unfoldable pub expr_evalop_ne_string_string : List Value → Outcome
unfolding c_int bytes_eq
expr_evalop_ne_string_string ((string a) ∷ (string b) ∷ []) =
    done (boolean (c_int (not (bytes_eq a b))))
expr_evalop_ne_string_string _ = mistyped

unfoldable pub match_ne_string_string : MatchItem
unfolding expr_evalop_ne_string_string
match_ne_string_string = record {
  op_type = op_ne;
  n_opd = 2;
  opd_types = type_string ∷ type_string ∷ [];
  evaluator = record { res_type_mask = type_boolean; eval_fn = expr_evalop_ne_string_string };
}

unfoldable pub expr_evalop_lt_integer_integer : List Value → Outcome
unfolding c_int
expr_evalop_lt_integer_integer ((integer a) ∷ (integer b) ∷ []) = done (boolean (c_int (ltb_ℤ a b)))
expr_evalop_lt_integer_integer _ = mistyped

unfoldable pub match_lt_integer_integer : MatchItem
unfolding expr_evalop_lt_integer_integer
match_lt_integer_integer = record {
  op_type = op_lt;
  n_opd = 2;
  opd_types = type_integer ∷ type_integer ∷ [];
  evaluator = record { res_type_mask = type_boolean; eval_fn = expr_evalop_lt_integer_integer };
}

unfoldable pub expr_evalop_le_integer_integer : List Value → Outcome
unfolding c_int
expr_evalop_le_integer_integer ((integer a) ∷ (integer b) ∷ []) = done (boolean (c_int (leb_ℤ a b)))
expr_evalop_le_integer_integer _ = mistyped

unfoldable pub match_le_integer_integer : MatchItem
unfolding expr_evalop_le_integer_integer
match_le_integer_integer = record {
  op_type = op_le;
  n_opd = 2;
  opd_types = type_integer ∷ type_integer ∷ [];
  evaluator = record { res_type_mask = type_boolean; eval_fn = expr_evalop_le_integer_integer };
}

unfoldable pub expr_evalop_gt_integer_integer : List Value → Outcome
unfolding c_int
expr_evalop_gt_integer_integer ((integer a) ∷ (integer b) ∷ []) = done (boolean (c_int (ltb_ℤ b a)))
expr_evalop_gt_integer_integer _ = mistyped

unfoldable pub match_gt_integer_integer : MatchItem
unfolding expr_evalop_gt_integer_integer
match_gt_integer_integer = record {
  op_type = op_gt;
  n_opd = 2;
  opd_types = type_integer ∷ type_integer ∷ [];
  evaluator = record { res_type_mask = type_boolean; eval_fn = expr_evalop_gt_integer_integer };
}

unfoldable pub expr_evalop_ge_integer_integer : List Value → Outcome
unfolding c_int
expr_evalop_ge_integer_integer ((integer a) ∷ (integer b) ∷ []) = done (boolean (c_int (leb_ℤ b a)))
expr_evalop_ge_integer_integer _ = mistyped

unfoldable pub match_ge_integer_integer : MatchItem
unfolding expr_evalop_ge_integer_integer
match_ge_integer_integer = record {
  op_type = op_ge;
  n_opd = 2;
  opd_types = type_integer ∷ type_integer ∷ [];
  evaluator = record { res_type_mask = type_boolean; eval_fn = expr_evalop_ge_integer_integer };
}
