-- ===== src/Expr/Operators/Arithmetic.antt =====
-- libbitpunch/src/core/expr.c: the shift and the arithmetic operators.
use bitpunch.Base.{List, [], ◌∷◌, if◌then◌else◌}
use bitpunch.Base.Int.{◌+ℤ◌, ◌-ℤ◌, ◌*ℤ◌, neg_ℤ}
use bitpunch.Base.Words.{wrap64}
use bitpunch.Base.Machine.{Machine}
use bitpunch.Expr.Values.{Value, integer, type_integer}
use bitpunch.Expr.Operators.Items.{
  Outcome, done, trap, mistyped, MatchItem, op_lshift, op_rshift, op_add, op_sub, op_mul, op_div,
  op_mod, op_uplus, op_uminus,
}
use bitpunch.Expr.Operators.Integers.{shift_left, shift_right, div_traps, div_i64, mod_i64}

unfoldable pub expr_evalop_lshift_integer_integer : Machine → List Value → Outcome
unfolding shift_left
expr_evalop_lshift_integer_integer m ((integer a) ∷ (integer b) ∷ []) =
    done (integer (shift_left m a b))
expr_evalop_lshift_integer_integer m _ = mistyped

unfoldable pub match_lshift_integer_integer : Machine → MatchItem
unfolding expr_evalop_lshift_integer_integer
match_lshift_integer_integer m = record {
  op_type = op_lshift;
  n_opd = 2;
  opd_types = type_integer ∷ type_integer ∷ [];
  evaluator = record {
    res_type_mask = type_integer;
    eval_fn = expr_evalop_lshift_integer_integer m;
  };
}

unfoldable pub expr_evalop_rshift_integer_integer : Machine → List Value → Outcome
unfolding shift_right
expr_evalop_rshift_integer_integer m ((integer a) ∷ (integer b) ∷ []) =
    done (integer (shift_right m a b))
expr_evalop_rshift_integer_integer m _ = mistyped

unfoldable pub match_rshift_integer_integer : Machine → MatchItem
unfolding expr_evalop_rshift_integer_integer
match_rshift_integer_integer m = record {
  op_type = op_rshift;
  n_opd = 2;
  opd_types = type_integer ∷ type_integer ∷ [];
  evaluator = record {
    res_type_mask = type_integer;
    eval_fn = expr_evalop_rshift_integer_integer m;
  };
}

unfoldable pub expr_evalop_add_integer_integer : List Value → Outcome
unfolding wrap64 ◌+ℤ◌
expr_evalop_add_integer_integer ((integer a) ∷ (integer b) ∷ []) = done (integer (wrap64 (a +ℤ b)))
expr_evalop_add_integer_integer _ = mistyped

unfoldable pub match_add_integer_integer : MatchItem
unfolding expr_evalop_add_integer_integer
match_add_integer_integer = record {
  op_type = op_add;
  n_opd = 2;
  opd_types = type_integer ∷ type_integer ∷ [];
  evaluator = record { res_type_mask = type_integer; eval_fn = expr_evalop_add_integer_integer };
}

unfoldable pub expr_evalop_sub_integer_integer : List Value → Outcome
unfolding wrap64 ◌-ℤ◌
expr_evalop_sub_integer_integer ((integer a) ∷ (integer b) ∷ []) = done (integer (wrap64 (a -ℤ b)))
expr_evalop_sub_integer_integer _ = mistyped

unfoldable pub match_sub_integer_integer : MatchItem
unfolding expr_evalop_sub_integer_integer
match_sub_integer_integer = record {
  op_type = op_sub;
  n_opd = 2;
  opd_types = type_integer ∷ type_integer ∷ [];
  evaluator = record { res_type_mask = type_integer; eval_fn = expr_evalop_sub_integer_integer };
}

unfoldable pub expr_evalop_mul_integer_integer : List Value → Outcome
unfolding wrap64 ◌*ℤ◌
expr_evalop_mul_integer_integer ((integer a) ∷ (integer b) ∷ []) = done (integer (wrap64 (a *ℤ b)))
expr_evalop_mul_integer_integer _ = mistyped

unfoldable pub match_mul_integer_integer : MatchItem
unfolding expr_evalop_mul_integer_integer
match_mul_integer_integer = record {
  op_type = op_mul;
  n_opd = 2;
  opd_types = type_integer ∷ type_integer ∷ [];
  evaluator = record { res_type_mask = type_integer; eval_fn = expr_evalop_mul_integer_integer };
}

unfoldable pub expr_evalop_div_integer_integer : List Value → Outcome
unfolding div_traps div_i64
expr_evalop_div_integer_integer ((integer a) ∷ (integer b) ∷ []) =
    if div_traps a b then trap else done (integer (div_i64 a b))
expr_evalop_div_integer_integer _ = mistyped

unfoldable pub match_div_integer_integer : MatchItem
unfolding expr_evalop_div_integer_integer
match_div_integer_integer = record {
  op_type = op_div;
  n_opd = 2;
  opd_types = type_integer ∷ type_integer ∷ [];
  evaluator = record { res_type_mask = type_integer; eval_fn = expr_evalop_div_integer_integer };
}

unfoldable pub expr_evalop_mod_integer_integer : List Value → Outcome
unfolding div_traps mod_i64
expr_evalop_mod_integer_integer ((integer a) ∷ (integer b) ∷ []) =
    if div_traps a b then trap else done (integer (mod_i64 a b))
expr_evalop_mod_integer_integer _ = mistyped

unfoldable pub match_mod_integer_integer : MatchItem
unfolding expr_evalop_mod_integer_integer
match_mod_integer_integer = record {
  op_type = op_mod;
  n_opd = 2;
  opd_types = type_integer ∷ type_integer ∷ [];
  evaluator = record { res_type_mask = type_integer; eval_fn = expr_evalop_mod_integer_integer };
}

unfoldable pub expr_evalop_uplus_integer : List Value → Outcome
expr_evalop_uplus_integer ((integer a) ∷ []) = done (integer (a))
expr_evalop_uplus_integer _ = mistyped

unfoldable pub match_uplus_integer : MatchItem
unfolding expr_evalop_uplus_integer
match_uplus_integer = record {
  op_type = op_uplus;
  n_opd = 1;
  opd_types = type_integer ∷ [];
  evaluator = record { res_type_mask = type_integer; eval_fn = expr_evalop_uplus_integer };
}

unfoldable pub expr_evalop_uminus_integer : List Value → Outcome
unfolding wrap64 neg_ℤ
expr_evalop_uminus_integer ((integer a) ∷ []) = done (integer (wrap64 (neg_ℤ a)))
expr_evalop_uminus_integer _ = mistyped

unfoldable pub match_uminus_integer : MatchItem
unfolding expr_evalop_uminus_integer
match_uminus_integer = record {
  op_type = op_uminus;
  n_opd = 1;
  opd_types = type_integer ∷ [];
  evaluator = record { res_type_mask = type_integer; eval_fn = expr_evalop_uminus_integer };
}
