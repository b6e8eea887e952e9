-- ===== src/Expr/Lookup/Arithmetic.antt =====
-- The shifts and the arithmetic operators have values of the type that they declare, or trap.
use bitpunch.Base.{refl, inl, inr, Bool-cases}
use bitpunch.Base.Machine.{Machine}
use bitpunch.Expr.Values.{integer, value_type}
use bitpunch.Expr.Operators.Items.{
  op_lshift, op_rshift, op_add, op_sub, op_mul, op_div, op_mod, op_uplus, op_uminus,
}
use bitpunch.Expr.Operators.Integers.{div_traps, div_i64, mod_i64}
use bitpunch.Expr.Operators.Arithmetic.{
  match_lshift_integer_integer, match_rshift_integer_integer, match_add_integer_integer,
  match_sub_integer_integer, match_mul_integer_integer, match_div_integer_integer,
  match_mod_integer_integer, match_uplus_integer, match_uminus_integer,
  expr_evalop_lshift_integer_integer, expr_evalop_rshift_integer_integer,
  expr_evalop_add_integer_integer, expr_evalop_sub_integer_integer, expr_evalop_mul_integer_integer,
  expr_evalop_div_integer_integer, expr_evalop_mod_integer_integer, expr_evalop_uplus_integer,
  expr_evalop_uminus_integer,
}
use bitpunch.Expr.Trees.{n_operands}
use bitpunch.Expr.Lookup.{IsSound}
use bitpunch.Expr.Lookup.Typed.{integer_set, integer-IsSound, integers-IsSound}

pub match_lshift_integer_integer-IsSound : (m : Machine) → IsSound (match_lshift_integer_integer m)
unfolding match_lshift_integer_integer expr_evalop_lshift_integer_integer value_type n_operands
match_lshift_integer_integer-IsSound m =
    integers-IsSound op_lshift (match_lshift_integer_integer m).evaluator refl
      (λ a b. inl (_, refl, refl, integer_set))

pub match_rshift_integer_integer-IsSound : (m : Machine) → IsSound (match_rshift_integer_integer m)
unfolding match_rshift_integer_integer expr_evalop_rshift_integer_integer value_type n_operands
match_rshift_integer_integer-IsSound m =
    integers-IsSound op_rshift (match_rshift_integer_integer m).evaluator refl
      (λ a b. inl (_, refl, refl, integer_set))

pub match_add_integer_integer-IsSound : IsSound match_add_integer_integer
unfolding match_add_integer_integer expr_evalop_add_integer_integer value_type n_operands
match_add_integer_integer-IsSound =
    integers-IsSound op_add match_add_integer_integer.evaluator refl
      (λ a b. inl (_, refl, refl, integer_set))

pub match_sub_integer_integer-IsSound : IsSound match_sub_integer_integer
unfolding match_sub_integer_integer expr_evalop_sub_integer_integer value_type n_operands
match_sub_integer_integer-IsSound =
    integers-IsSound op_sub match_sub_integer_integer.evaluator refl
      (λ a b. inl (_, refl, refl, integer_set))

pub match_mul_integer_integer-IsSound : IsSound match_mul_integer_integer
unfolding match_mul_integer_integer expr_evalop_mul_integer_integer value_type n_operands
match_mul_integer_integer-IsSound =
    integers-IsSound op_mul match_mul_integer_integer.evaluator refl
      (λ a b. inl (_, refl, refl, integer_set))

pub match_div_integer_integer-IsSound : IsSound match_div_integer_integer
unfolding match_div_integer_integer expr_evalop_div_integer_integer value_type n_operands
match_div_integer_integer-IsSound =
    integers-IsSound op_div match_div_integer_integer.evaluator refl (λ a b.
      elim (Bool-cases (div_traps a b)) [
        | inl e ↦ inr (rw e refl)
        | inr e ↦ inl (integer (div_i64 a b), rw e refl, refl, integer_set)
      ])

pub match_mod_integer_integer-IsSound : IsSound match_mod_integer_integer
unfolding match_mod_integer_integer expr_evalop_mod_integer_integer value_type n_operands
match_mod_integer_integer-IsSound =
    integers-IsSound op_mod match_mod_integer_integer.evaluator refl (λ a b.
      elim (Bool-cases (div_traps a b)) [
        | inl e ↦ inr (rw e refl)
        | inr e ↦ inl (integer (mod_i64 a b), rw e refl, refl, integer_set)
      ])

pub match_uplus_integer-IsSound : IsSound match_uplus_integer
unfolding match_uplus_integer expr_evalop_uplus_integer value_type n_operands
match_uplus_integer-IsSound =
    integer-IsSound op_uplus match_uplus_integer.evaluator refl
      (λ a. inl (_, refl, refl, integer_set))

pub match_uminus_integer-IsSound : IsSound match_uminus_integer
unfolding match_uminus_integer expr_evalop_uminus_integer value_type n_operands
match_uminus_integer-IsSound =
    integer-IsSound op_uminus match_uminus_integer.evaluator refl
      (λ a. inl (_, refl, refl, integer_set))
