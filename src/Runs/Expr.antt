-- ===== src/Runs/Expr.antt =====
-- Runs of the expressions.
use bitpunch.Base.{◌≡◌, ◌≢◌, ◌↔◌, inr, refl, arith, [], ◌∷◌, some}
use bitpunch.Base.Int.{ℤ, pos, negsuc, neg_ℤ, ◌-ℤ◌}
use bitpunch.Status.{ok}
use bitpunch.Expr.Values.{type_integer, integer, value_type, expr_value_cmp}
use bitpunch.Expr.Operators.Items.{op_add, op_mul, done}
use bitpunch.Expr.Operators.Arithmetic.{
  expr_evalop_div_integer_integer, expr_evalop_mod_integer_integer, match_add_integer_integer,
}
use bitpunch.Expr.Operators.Table.{expr_lookup_evaluator}
use bitpunch.Expr.Trees.{
  Tree, native, other, binary, Node, native_node, other_node, binary_node, compiled, compile_tree,
  evaluate_value, value_type_mask, n_operands, compile_binary, compile_binary_type, with_evaluator,
  native_internal,
}
use bitpunch.Expr.Meaning.{meaning, HasType, value_typed}
use bitpunch.Expr.Soundness.{compile_tree-evaluate_value}
use bitpunch.Expr.Order.{expr_value_cmp_antisymmetric}
use bitpunch.Expr.Laws.{IsDivision, div-mod}
use bitpunch.Runs.Host.{host}

-- x + 2 * 3, where x is evaluated to 4.
abbrev sum : Tree
sum =
    binary op_add (other 1 (ok (integer (pos 4))))
      (binary op_mul (native (integer (pos 2))) (native (integer (pos 3))))

abbrev sum_node : Node
sum_node =
    binary_node match_add_integer_integer.evaluator (other_node 1 (ok (integer (pos 4))))
      (native_node (integer (pos 6)))

sum_compiled : compile_tree host sum ≡ compiled sum_node
unfolding compile_tree compile_binary compile_binary_type with_evaluator native_internal
    expr_lookup_evaluator value_type_mask value_type
sum_compiled = refl

tree_example :
    (evaluate_value sum_node ≡ meaning host sum)
    × HasType (value_type_mask sum_node) (evaluate_value sum_node)
unfolding n_operands value_type
tree_example =
    compile_tree-evaluate_value host sum sum_node
      (refl, value_typed (integer (pos 4)) refl set, (refl, set, set)) sum_compiled
  where
    set : type_integer ≢ 0
    set e = omega (arith, e)

cmp_example :
    ((negsuc 0 ≡ pos 0) ↔ (integer (pos 3) ≡ integer (pos 5)))
    × (expr_value_cmp (integer (pos 5)) (integer (pos 3)) ≡ some (neg_ℤ (negsuc 0)))
unfolding expr_value_cmp ◌-ℤ◌
cmp_example = expr_value_cmp_antisymmetric (integer (pos 3)) (integer (pos 5)) (negsuc 0) refl

quotient_example :
    (q r : ℤ) × (expr_evalop_div_integer_integer (integer (negsuc 6) ∷ integer (pos 2) ∷ [])
      ≡ done (integer q))
    × (expr_evalop_mod_integer_integer (integer (negsuc 6) ∷ integer (pos 2) ∷ [])
        ≡ done (integer r))
    × IsDivision (negsuc 6) (pos 2) q r
quotient_example = div-mod (negsuc 6) (pos 2) (λ e. cc) (inr (λ e. cc))
