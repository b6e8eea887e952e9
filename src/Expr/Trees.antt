-- ===== src/Expr/Trees.antt =====
-- libbitpunch/src/core/ast.c: how an expression of operators is compiled, with the evaluation of
-- constant operands; and libbitpunch/src/core/expr.c: how the compiled expression is evaluated.
use bitpunch.Base.{ℕ, List, [], ◌∷◌, ◌==◌, if◌then◌else◌, Option, none, some}
use bitpunch.Base.Machine.{Machine}
use bitpunch.Status.{Result, ok}
use bitpunch.Expr.Values.{Value, value_type, type_unset}
use bitpunch.Expr.Operators.Items.{
  OpType, op_lnot, op_bwnot, op_uplus, op_uminus, Outcome, done, trap, mistyped, Evaluator,
}
use bitpunch.Expr.Operators.Table.{expr_lookup_evaluator}

-- An expression as parsed. One that is neither a constant nor an operator is given by the types that
-- it may have and by what its evaluation returns.
pub data Tree : Type 0 where
  native : Value → Tree
  other : ℕ → Result Value → Tree
  unary : OpType → Tree → Tree
  binary : OpType → Tree → Tree → Tree

-- A compiled expression: an operator with its evaluator.
pub data Node : Type 0 where
  native_node : Value → Node
  other_node : ℕ → Result Value → Node
  unary_node : Evaluator → Node → Node
  binary_node : Evaluator → Node → Node → Node

-- A compilation: its expression; a semantic error; or what an evaluation of constants may come to.
pub data Compiled : Type 0 where
  compiled : Node → Compiled
  rejected compile_traps compile_misreads : Compiled

-- An evaluation: what it returns; a trap of the processor; or a read of the wrong union member.
pub data Run : Type 0 where
  returns : Result Value → Run
  traps misreads : Run

-- The number of operands that the evaluation takes for an operator.
unfoldable pub n_operands : OpType → ℕ
n_operands op_uplus = 1
n_operands op_uminus = 1
n_operands op_lnot = 1
n_operands op_bwnot = 1
n_operands _ = 2

-- `u.rexpr.value_type_mask`
unfoldable pub value_type_mask : Node → ℕ
unfolding value_type
value_type_mask (native_node v) = value_type v
value_type_mask (other_node mask r) = mask
value_type_mask (unary_node evaluator a) = evaluator.res_type_mask
value_type_mask (binary_node evaluator a b) = evaluator.res_type_mask

-- The constant that the evaluation of constant operands makes.
unfoldable pub native_internal : Outcome → Compiled
native_internal (done v) = compiled (native_node v)
native_internal trap = compile_traps
native_internal mistyped = compile_misreads

unfoldable pub with_evaluator : List Node → Option Evaluator → Compiled
unfolding native_internal
with_evaluator nodes none = rejected
with_evaluator (native_node v ∷ []) (some evaluator) = native_internal (evaluator.eval_fn (v ∷ []))
with_evaluator (native_node v ∷ native_node w ∷ []) (some evaluator) =
    native_internal (evaluator.eval_fn (v ∷ w ∷ []))
with_evaluator (a ∷ []) (some evaluator) = compiled (unary_node evaluator a)
with_evaluator (a ∷ b ∷ []) (some evaluator) = compiled (binary_node evaluator a b)
with_evaluator _ (some evaluator) = rejected

unfoldable pub compile_unary_type : Machine → OpType → Node → Compiled
unfolding with_evaluator value_type_mask
compile_unary_type m op a =
    if value_type_mask a == type_unset
    then rejected
    else with_evaluator (a ∷ []) (expr_lookup_evaluator m op (value_type_mask a ∷ []))

unfoldable pub compile_binary_type : Machine → OpType → Node → Node → Compiled
unfolding with_evaluator value_type_mask
compile_binary_type m op a b =
    if value_type_mask a == type_unset
    then rejected
    else if value_type_mask b == type_unset
    then rejected
    else with_evaluator (a ∷ b ∷ [])
        (expr_lookup_evaluator m op (value_type_mask a ∷ value_type_mask b ∷ []))

-- Both operands are compiled before an error in one of them is looked at.
unfoldable pub compile_unary : Machine → OpType → Compiled → Compiled
unfolding compile_unary_type
compile_unary m op (compiled a) = compile_unary_type m op a
compile_unary m op c = c

unfoldable pub compile_binary : Machine → OpType → Compiled → Compiled → Compiled
unfolding compile_binary_type
compile_binary m op (compiled a) (compiled b) = compile_binary_type m op a b
compile_binary m op compile_traps d = compile_traps
compile_binary m op compile_misreads d = compile_misreads
compile_binary m op c compile_traps = compile_traps
compile_binary m op c compile_misreads = compile_misreads
compile_binary m op c d = rejected

unfoldable pub compile_tree : Machine → Tree → Compiled
unfolding compile_unary compile_binary
compile_tree m (native v) = compiled (native_node v)
compile_tree m (other mask r) = compiled (other_node mask r)
compile_tree m (unary op a) = compile_unary m op (compile_tree m a)
compile_tree m (binary op a b) = compile_binary m op (compile_tree m a) (compile_tree m b)

unfoldable pub run_of : Outcome → Run
run_of (done v) = returns (ok v)
run_of trap = traps
run_of mistyped = misreads

unfoldable pub evaluate_unary : (List Value → Outcome) → Run → Run
unfolding run_of
evaluate_unary eval_fn (returns (ok v)) = run_of (eval_fn (v ∷ []))
evaluate_unary eval_fn r = r

-- The second operand is evaluated only when the first returns a value.
unfoldable pub evaluate_binary : (List Value → Outcome) → Run → Run → Run
unfolding run_of
evaluate_binary eval_fn (returns (ok v)) (returns (ok w)) = run_of (eval_fn (v ∷ w ∷ []))
evaluate_binary eval_fn (returns (ok v)) r = r
evaluate_binary eval_fn r s = r

-- expr_evaluate_value_internal() of a compiled expression.
unfoldable pub evaluate_value : Node → Run
unfolding evaluate_unary evaluate_binary
evaluate_value (native_node v) = returns (ok v)
evaluate_value (other_node mask r) = returns r
evaluate_value (unary_node evaluator a) = evaluate_unary evaluator.eval_fn (evaluate_value a)
evaluate_value (binary_node evaluator a b) =
    evaluate_binary evaluator.eval_fn (evaluate_value a) (evaluate_value b)
