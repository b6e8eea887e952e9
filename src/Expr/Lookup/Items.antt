-- ===== src/Expr/Lookup/Items.antt =====
-- Every operator in the table, on operands of its types, has a value of the type that it declares.
use bitpunch.Base.{All}
use bitpunch.Base.Machine.{Machine}
use bitpunch.Expr.Operators.Table.{expr_evalop_match_items}
use bitpunch.Expr.Lookup.{IsSound}
use bitpunch.Expr.Lookup.Comparisons.{
  match_eq_integer_integer-IsSound, match_eq_boolean_boolean-IsSound,
  match_eq_string_string-IsSound, match_ne_integer_integer-IsSound,
  match_ne_boolean_boolean-IsSound, match_ne_string_string-IsSound,
  match_lt_integer_integer-IsSound, match_le_integer_integer-IsSound,
  match_gt_integer_integer-IsSound, match_ge_integer_integer-IsSound,
}
use bitpunch.Expr.Lookup.Logic.{
  match_lor_boolean_boolean-IsSound, match_land_boolean_boolean-IsSound, match_lnot_boolean-IsSound,
  match_bwor_integer_integer-IsSound, match_bwand_integer_integer-IsSound,
  match_bwxor_integer_integer-IsSound, match_bwnot_integer-IsSound,
}
use bitpunch.Expr.Lookup.Arithmetic.{
  match_lshift_integer_integer-IsSound, match_rshift_integer_integer-IsSound,
  match_add_integer_integer-IsSound, match_sub_integer_integer-IsSound,
  match_mul_integer_integer-IsSound, match_div_integer_integer-IsSound,
  match_mod_integer_integer-IsSound, match_uplus_integer-IsSound, match_uminus_integer-IsSound,
}

infixr 20 ◌&◌
abbrev ◌&◌ : {P Q : Type 0} → P → Q → P × Q
p & q = (p, q)

pub expr_evalop_match_items-IsSound : (m : Machine) → All IsSound (expr_evalop_match_items m)
unfolding expr_evalop_match_items
expr_evalop_match_items-IsSound m =
    match_eq_integer_integer-IsSound
    & match_eq_boolean_boolean-IsSound
    & match_eq_string_string-IsSound
    & match_ne_integer_integer-IsSound
    & match_ne_boolean_boolean-IsSound
    & match_ne_string_string-IsSound
    & match_lt_integer_integer-IsSound
    & match_le_integer_integer-IsSound
    & match_gt_integer_integer-IsSound
    & match_ge_integer_integer-IsSound
    & match_lor_boolean_boolean-IsSound
    & match_land_boolean_boolean-IsSound
    & match_lnot_boolean-IsSound
    & match_bwor_integer_integer-IsSound
    & match_bwand_integer_integer-IsSound
    & match_bwxor_integer_integer-IsSound
    & match_bwnot_integer-IsSound
    & match_lshift_integer_integer-IsSound m
    & match_rshift_integer_integer-IsSound m
    & match_add_integer_integer-IsSound
    & match_sub_integer_integer-IsSound
    & match_mul_integer_integer-IsSound
    & match_div_integer_integer-IsSound
    & match_mod_integer_integer-IsSound
    & match_uplus_integer-IsSound
    & match_uminus_integer-IsSound
    & tt
