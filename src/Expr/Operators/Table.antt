-- ===== src/Expr/Operators/Table.antt =====
-- libbitpunch/src/core/expr.c: the table of the operators and the search in it.
use bitpunch.Base.{
  ℕ, zero, suc, List, [], ◌∷◌, get_or, bit_and, Bool, true, ◌&&◌, ◌==◌, if◌then◌else◌, Option, none,
  some,
}
use bitpunch.Base.Machine.{Machine}
use bitpunch.Expr.Operators.Items.{
  OpType, op_eq, op_ne, op_lt, op_le, op_gt, op_ge, op_lor, op_land, op_lnot, op_bwor, op_bwand,
  op_bwxor, op_bwnot, op_lshift, op_rshift, op_add, op_sub, op_mul, op_div, op_mod, op_uplus,
  op_uminus, Evaluator, MatchItem,
}
use bitpunch.Expr.Operators.Comparisons.{
  match_eq_integer_integer, match_eq_boolean_boolean, match_eq_string_string,
  match_ne_integer_integer, match_ne_boolean_boolean, match_ne_string_string,
  match_lt_integer_integer, match_le_integer_integer, match_gt_integer_integer,
  match_ge_integer_integer,
}
use bitpunch.Expr.Operators.Logic.{
  match_lor_boolean_boolean, match_land_boolean_boolean, match_lnot_boolean,
  match_bwor_integer_integer, match_bwand_integer_integer, match_bwxor_integer_integer,
  match_bwnot_integer,
}
use bitpunch.Expr.Operators.Arithmetic.{
  match_lshift_integer_integer, match_rshift_integer_integer, match_add_integer_integer,
  match_sub_integer_integer, match_mul_integer_integer, match_div_integer_integer,
  match_mod_integer_integer, match_uplus_integer, match_uminus_integer,
}

-- `expr_evalop_match_items`
unfoldable pub expr_evalop_match_items : Machine → List MatchItem
unfolding match_eq_integer_integer match_eq_boolean_boolean match_eq_string_string
    match_ne_integer_integer match_ne_boolean_boolean match_ne_string_string
    match_lt_integer_integer match_le_integer_integer match_gt_integer_integer
    match_ge_integer_integer match_lor_boolean_boolean match_land_boolean_boolean match_lnot_boolean
    match_bwor_integer_integer match_bwand_integer_integer match_bwxor_integer_integer
    match_bwnot_integer match_lshift_integer_integer match_rshift_integer_integer
    match_add_integer_integer match_sub_integer_integer match_mul_integer_integer
    match_div_integer_integer match_mod_integer_integer match_uplus_integer match_uminus_integer
expr_evalop_match_items m =
    match_eq_integer_integer
    ∷ match_eq_boolean_boolean
    ∷ match_eq_string_string
    ∷ match_ne_integer_integer
    ∷ match_ne_boolean_boolean
    ∷ match_ne_string_string
    ∷ match_lt_integer_integer
    ∷ match_le_integer_integer
    ∷ match_gt_integer_integer
    ∷ match_ge_integer_integer
    ∷ match_lor_boolean_boolean
    ∷ match_land_boolean_boolean
    ∷ match_lnot_boolean
    ∷ match_bwor_integer_integer
    ∷ match_bwand_integer_integer
    ∷ match_bwxor_integer_integer
    ∷ match_bwnot_integer
    ∷ match_lshift_integer_integer m
    ∷ match_rshift_integer_integer m
    ∷ match_add_integer_integer
    ∷ match_sub_integer_integer
    ∷ match_mul_integer_integer
    ∷ match_div_integer_integer
    ∷ match_mod_integer_integer
    ∷ match_uplus_integer
    ∷ match_uminus_integer
    ∷ []

-- The place of an operator in `enum ast_node_type`, behind that of AST_NODE_TYPE_REXPR_OP_EQ.
unfoldable pub op_code : OpType → ℕ
op_code op_eq = 0
op_code op_ne = 1
op_code op_lt = 3
op_code op_le = 5
op_code op_gt = 2
op_code op_ge = 4
op_code op_lor = 6
op_code op_land = 7
op_code op_lnot = 20
op_code op_bwor = 8
op_code op_bwand = 10
op_code op_bwxor = 9
op_code op_bwnot = 21
op_code op_lshift = 11
op_code op_rshift = 12
op_code op_add = 13
op_code op_sub = 14
op_code op_mul = 15
op_code op_div = 16
op_code op_mod = 17
op_code op_uplus = 18
op_code op_uminus = 19

-- The inner loop, with `n` operands to go from the operand `i` on: every type that an operand may
-- have is one that the item takes.
unfoldable pub operands_match : ℕ → ℕ → List ℕ → List ℕ → Bool
operands_match zero i types item_types = true
operands_match (suc n) i types item_types =
    let rest = operands_match n (suc i) types item_types in
    let type = get_or types i 0 in (bit_and type (get_or item_types i 0) == type) && rest

-- The outer loop, over the items that are left.
unfoldable pub lookup_items : OpType → List ℕ → List MatchItem → Option Evaluator
unfolding operands_match op_code
lookup_items op types [] = none
lookup_items op types (item ∷ items) =
    let rest = lookup_items op types items in
    if (op_code item.op_type == op_code op) && operands_match item.n_opd 0 types item.opd_types
    then some item.evaluator
    else rest

unfoldable pub expr_lookup_evaluator : Machine → OpType → List ℕ → Option Evaluator
unfolding lookup_items expr_evalop_match_items
expr_lookup_evaluator m op types = lookup_items op types (expr_evalop_match_items m)
