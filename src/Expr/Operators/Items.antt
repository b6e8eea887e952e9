-- ===== src/Expr/Operators/Items.antt =====
-- libbitpunch/src/core/expr.c: what an operator is, and what an evaluation of one comes to.
use bitpunch.Base.{ℕ, List}
use bitpunch.Expr.Values.{Value}

-- The operators of `enum ast_node_type`, from AST_NODE_TYPE_REXPR_OP_EQ.
pub data OpType : Type 0 where
  op_eq op_ne op_gt op_lt op_ge op_le op_lor op_land op_bwor op_bwxor op_bwand : OpType
  op_lshift op_rshift op_add op_sub op_mul op_div op_mod : OpType
  op_uplus op_uminus op_lnot op_bwnot : OpType

-- A call of an operator's function: its value; the processor's trap of a division that has no
-- result; or a read of a union's member that is not the one that is set.
pub data Outcome : Type 0 where
  done : Value → Outcome
  trap mistyped : Outcome

-- `struct expr_evaluator`
pub record Evaluator : Type 0 where
  pub res_type_mask : ℕ
  pub eval_fn : List Value → Outcome

-- `struct expr_evalop_match_item`
pub record MatchItem : Type 0 where
  pub op_type : OpType
  pub n_opd : ℕ
  pub opd_types : List ℕ
  pub evaluator : Evaluator
