-- ===== src/Expr/Meaning.antt =====
-- The meaning of an expression of operators, in which every operator looks at the types of the values
-- that it gets, and how one operator agrees with its evaluator.
use bitpunch.Base.{
  ℕ, ◌≡◌, refl, sym, ap, ◌∙◌, ◌≢◌, inl, inr, arith, [], ◌∷◌, none, some, if◌then◌else◌, ltb,
}
use bitpunch.Base.Machine.{Machine}
use bitpunch.Status.{Status, ok, err}
use bitpunch.Expr.Values.{
  Value, unset, integer, boolean, string, bytes, data_source, data_range, value_type,
}
use bitpunch.Expr.Operators.Items.{
  OpType, op_eq, op_ne, op_lt, op_le, op_gt, op_ge, op_lor, op_land, op_lnot, op_bwor, op_bwand,
  op_bwxor, op_bwnot, op_lshift, op_rshift, op_add, op_sub, op_mul, op_div, op_mod, op_uplus,
  op_uminus, Outcome, Evaluator,
}
use bitpunch.Expr.Operators.Table.{op_code, expr_evalop_match_items, expr_lookup_evaluator}
use bitpunch.Expr.Trees.{
  Tree, native, other, unary, binary, Run, returns, traps, misreads, n_operands, run_of,
  evaluate_unary, evaluate_binary,
}
use bitpunch.Expr.Lookup.{◌⊆◌, IsGood, lookup_items-found}
use bitpunch.Expr.Lookup.Items.{expr_evalop_match_items-IsSound}

unfoldable pub apply_unary : Machine → OpType → Run → Run
apply_unary m op (returns (ok v)) = elim (expr_lookup_evaluator m op (value_type v ∷ [])) [
  | some evaluator ↦ run_of (evaluator.eval_fn (v ∷ []))
  | none ↦ misreads
]
apply_unary m op r = r

unfoldable pub apply_binary : Machine → OpType → Run → Run → Run
apply_binary m op (returns (ok v)) (returns (ok w)) =
    elim (expr_lookup_evaluator m op (value_type v ∷ value_type w ∷ [])) [
      | some evaluator ↦ run_of (evaluator.eval_fn (v ∷ w ∷ []))
      | none ↦ misreads
    ]
apply_binary m op (returns (ok v)) r = r
apply_binary m op r s = r

-- The meaning of an expression.
unfoldable pub meaning : Machine → Tree → Run
unfolding apply_unary apply_binary
meaning m (native v) = returns (ok v)
meaning m (other mask r) = returns r
meaning m (unary op a) = apply_unary m op (meaning m a)
meaning m (binary op a b) = apply_binary m op (meaning m a) (meaning m b)

-- A run that reads no member of the wrong type and whose value, if any, has a type in `mask`.
pub data HasType (mask : ℕ) : Run → Type 0 where
  value_typed : (v : Value) → value_type v ⊆ mask → value_type v ≢ 0 → HasType mask (returns (ok v))
  failed : (s : Status) → HasType mask (returns (err s))
  trapped : HasType mask traps

-- An expression that the parser can build, whose constants are set, and whose other parts return
-- values of the types that they declare.
abbrev pub IsWellFormed : Tree → Type 0
IsWellFormed (native v) = value_type v ≢ 0
IsWellFormed (other mask r) = HasType mask (returns r)
IsWellFormed (unary op a) = (n_operands op ≡ 1) × IsWellFormed a
IsWellFormed (binary op a b) = (n_operands op ≡ 2) × IsWellFormed a × IsWellFormed b

arity_of : ℕ → ℕ
arity_of c = if ltb c 18 then 2 else 1

n_operands_code : (op : OpType) → n_operands op ≡ arity_of (op_code op)
unfolding n_operands op_code arity_of
n_operands_code op_eq = refl
n_operands_code op_ne = refl
n_operands_code op_lt = refl
n_operands_code op_le = refl
n_operands_code op_gt = refl
n_operands_code op_ge = refl
n_operands_code op_lor = refl
n_operands_code op_land = refl
n_operands_code op_lnot = refl
n_operands_code op_bwor = refl
n_operands_code op_bwand = refl
n_operands_code op_bwxor = refl
n_operands_code op_bwnot = refl
n_operands_code op_lshift = refl
n_operands_code op_rshift = refl
n_operands_code op_add = refl
n_operands_code op_sub = refl
n_operands_code op_mul = refl
n_operands_code op_div = refl
n_operands_code op_mod = refl
n_operands_code op_uplus = refl
n_operands_code op_uminus = refl

same_arity : (o op : OpType) → op_code o ≡ op_code op → n_operands o ≡ n_operands op
same_arity o op h = n_operands_code o ∙ ap arity_of h ∙ sym (n_operands_code op)

lookup_unary :
    (m : Machine) (op : OpType) (t : ℕ) (ev : Evaluator) (v : Value)
    → n_operands op ≡ 1
    → t ≢ 0
    → expr_lookup_evaluator m op (t ∷ []) ≡ some ev
    → value_type v ⊆ t
    → value_type v ≢ 0
    → (t ≡ value_type v) × IsGood ev (ev.eval_fn (v ∷ []))
unfolding expr_lookup_evaluator
lookup_unary m op t ev v arity set found sub v_set =
    let (item, sound, code, matched, same) =
      lookup_items-found op (t ∷ []) (expr_evalop_match_items m) ev
        (expr_evalop_match_items-IsSound m) found in
    elim sound [
      | inl (one, good) ↦ rw (← same) (good t v matched set sub v_set)
      | inr (two, good) ↦ absurd (omega (arith, two, arity, same_arity item.op_type op code))
    ]

lookup_binary :
    (m : Machine) (op : OpType) (t u : ℕ) (ev : Evaluator) (v w : Value)
    → n_operands op ≡ 2
    → t ≢ 0
    → u ≢ 0
    → expr_lookup_evaluator m op (t ∷ u ∷ []) ≡ some ev
    → value_type v ⊆ t
    → value_type v ≢ 0
    → value_type w ⊆ u
    → value_type w ≢ 0
    → (t ≡ value_type v) × (u ≡ value_type w) × IsGood ev (ev.eval_fn (v ∷ w ∷ []))
unfolding expr_lookup_evaluator
lookup_binary m op t u ev v w arity t_set u_set found v_sub v_set w_sub w_set =
    let (item, sound, code, matched, same) =
      lookup_items-found op (t ∷ u ∷ []) (expr_evalop_match_items m) ev
        (expr_evalop_match_items-IsSound m) found in
    elim sound [
      | inl (one, good) ↦ absurd (omega (arith, one, arity, same_arity item.op_type op code))
      | inr (two, good) ↦ rw (← same) (good t u v w matched t_set u_set v_sub v_set w_sub w_set)
    ]

pub type_in_itself : (v : Value) → value_type v ⊆ value_type v
unfolding value_type
type_in_itself unset = refl
type_in_itself (integer z) = refl
type_in_itself (boolean z) = refl
type_in_itself (string s) = refl
type_in_itself (bytes s) = refl
type_in_itself (data_source s) = refl
type_in_itself (data_range s a b) = refl

-- A good outcome is a typed run.
pub good_typed : (ev : Evaluator) (o : Outcome) → IsGood ev o → HasType ev.res_type_mask (run_of o)
unfolding run_of
good_typed ev o (inl (v, e, ty, set)) = rw (e, sym ty) (value_typed v (type_in_itself v) set)
good_typed ev o (inr e) = rw e trapped

module _ (m : Machine) (op : OpType) (ev : Evaluator) where
  pub unary_run :
      (t : ℕ) (r : Run)
      → n_operands op ≡ 1
      → t ≢ 0
      → expr_lookup_evaluator m op (t ∷ []) ≡ some ev
      → HasType t r
      → (evaluate_unary ev.eval_fn r ≡ apply_unary m op r)
        × HasType ev.res_type_mask (evaluate_unary ev.eval_fn r)
  unfolding evaluate_unary apply_unary
  unary_run t r arity set found (value_typed v sub v_set) =
      let (same, good) = lookup_unary m op t ev v arity set found sub v_set in
      let found_again : expr_lookup_evaluator m op (value_type v ∷ []) ≡ some ev =
        rw (sym same) found in
      (rw (apply_unary, found_again) refl, good_typed ev (ev.eval_fn (v ∷ [])) good)
  unary_run t r arity set found (failed s) = (refl, failed s)
  unary_run t r arity set found trapped = (refl, trapped)

  pub binary_run :
      (t u : ℕ) (r s : Run)
      → n_operands op ≡ 2
      → t ≢ 0
      → u ≢ 0
      → expr_lookup_evaluator m op (t ∷ u ∷ []) ≡ some ev
      → HasType t r
      → HasType u s
      → (evaluate_binary ev.eval_fn r s ≡ apply_binary m op r s)
        × HasType ev.res_type_mask (evaluate_binary ev.eval_fn r s)
  unfolding evaluate_binary apply_binary
  binary_run t u r s arity t_set u_set found (value_typed v sub v_set) (value_typed w w_sub w_set) =
      let (same, same_w, good) =
        lookup_binary m op t u ev v w arity t_set u_set found sub v_set w_sub w_set in
      let found_again : expr_lookup_evaluator m op (value_type v ∷ value_type w ∷ []) ≡ some ev =
        rw (sym same, sym same_w) found in
      (rw (apply_binary, found_again) refl, good_typed ev (ev.eval_fn (v ∷ w ∷ [])) good)
  binary_run t u r s arity t_set u_set found (value_typed v sub v_set) (failed e) = (refl, failed e)
  binary_run t u r s arity t_set u_set found (value_typed v sub v_set) trapped = (refl, trapped)
  binary_run t u r s arity t_set u_set found (failed e) k = (refl, failed e)
  binary_run t u r s arity t_set u_set found trapped k = (refl, trapped)
