-- ===== src/Expr/Soundness.antt =====
-- A compiled expression against the meaning of the expression.
use bitpunch.Base.{◌≡◌, refl, sym, ap, ◌∙◌, ◌≢◌, ◌⊎◌, inl, inr, arith, [], ◌∷◌, some, Option-cases}
use bitpunch.Base.Machine.{Machine}
use bitpunch.Status.{ok}
use bitpunch.Expr.Values.{Value, value_type}
use bitpunch.Expr.Operators.Items.{OpType, Outcome, done, trap, mistyped, Evaluator}
use bitpunch.Expr.Operators.Table.{expr_lookup_evaluator}
use bitpunch.Expr.Trees.{
  Tree, native, other, unary, binary, Node, native_node, other_node, unary_node, binary_node,
  Compiled, compiled, rejected, compile_traps, compile_misreads, returns, n_operands,
  value_type_mask, native_internal, with_evaluator, compile_unary_type, compile_binary_type,
  compile_unary, compile_binary, compile_tree, run_of, evaluate_unary, evaluate_binary,
  evaluate_value,
}
use bitpunch.Expr.Meaning.{
  apply_unary, meaning, HasType, value_typed, IsWellFormed, type_in_itself, unary_run, binary_run,
}

native_internal_compiled :
    (o : Outcome) (n : Node)
    → native_internal o ≡ compiled n
    → (r : Value) × (o ≡ done r) × (n ≡ native_node r)
unfolding native_internal
native_internal_compiled (done r) n h = (r, refl, cc)
native_internal_compiled trap n h = cc
native_internal_compiled mistyped n h = cc

-- The operator stays, unless its operands are constants.
with_unary :
    (ev : Evaluator) (a n : Node)
    → with_evaluator (a ∷ []) (some ev) ≡ compiled n
    → (n ≡ unary_node ev a)
      ⊎ ((v r : Value) × (a ≡ native_node v) × (ev.eval_fn (v ∷ []) ≡ done r) × (n ≡ native_node r))
unfolding with_evaluator
with_unary ev (native_node v) n h =
    let (r, e, f) = native_internal_compiled (ev.eval_fn (v ∷ [])) n h in inr (v, r, refl, e, f)
with_unary ev (other_node mask r) n h = inl cc
with_unary ev (unary_node f a) n h = inl cc
with_unary ev (binary_node f a b) n h = inl cc

with_binary :
    (ev : Evaluator) (a b n : Node)
    → with_evaluator (a ∷ b ∷ []) (some ev) ≡ compiled n
    → (n ≡ binary_node ev a b)
      ⊎ ((v w r : Value) × (a ≡ native_node v)
          × (b ≡ native_node w)
          × (ev.eval_fn (v ∷ w ∷ []) ≡ done r)
          × (n ≡ native_node r))
unfolding with_evaluator
with_binary ev (native_node v) (native_node w) n h =
    let (r, e, f) = native_internal_compiled (ev.eval_fn (v ∷ w ∷ [])) n h in
    inr (v, w, r, refl, refl, e, f)
with_binary ev (native_node v) (other_node mask r) n h = inl cc
with_binary ev (native_node v) (unary_node f c) n h = inl cc
with_binary ev (native_node v) (binary_node f c d) n h = inl cc
with_binary ev (other_node mask r) b n h = inl cc
with_binary ev (unary_node f c) b n h = inl cc
with_binary ev (binary_node f c d) b n h = inl cc

-- An operand's run is what it is compiled to, and typed.
abbrev pub Agrees : Machine → Tree → Node → Type 0
Agrees m t n = (evaluate_value n ≡ meaning m t) × HasType (value_type_mask n) (evaluate_value n)

-- The type of a constant is that of its value.
folded_typed :
    (ev : Evaluator) (o : Outcome) (r : Value)
    → o ≡ done r
    → HasType ev.res_type_mask (run_of o)
    → HasType (value_type r) (returns (ok r))
unfolding run_of
folded_typed ev o r e typed = typed_self (rw e at typed)
  where
    typed_self : HasType ev.res_type_mask (returns (ok r)) → HasType (value_type r) (returns (ok r))
    typed_self (value_typed v sub set) = value_typed v (type_in_itself v) set

compile_unary_type_compiled :
    (m : Machine) (op : OpType) (a n : Node)
    → compile_unary_type m op a ≡ compiled n
    → (ev : Evaluator) × (value_type_mask a ≢ 0)
      × (expr_lookup_evaluator m op (value_type_mask a ∷ []) ≡ some ev)
      × (with_evaluator (a ∷ []) (some ev) ≡ compiled n)
unfolding compile_unary_type with_evaluator
compile_unary_type_compiled m op a n h =
    elim (Option-cases (expr_lookup_evaluator m op (value_type_mask a ∷ []))) [
      | inl e ↦ absurd (ground arith)
      | inr (ev, e) ↦ (ev, λ z. ground arith, e, ground arith)
    ]

compile_binary_type_compiled :
    (m : Machine) (op : OpType) (a b n : Node)
    → compile_binary_type m op a b ≡ compiled n
    → (ev : Evaluator) × (value_type_mask a ≢ 0)
      × (value_type_mask b ≢ 0)
      × (expr_lookup_evaluator m op (value_type_mask a ∷ value_type_mask b ∷ []) ≡ some ev)
      × (with_evaluator (a ∷ b ∷ []) (some ev) ≡ compiled n)
unfolding compile_binary_type with_evaluator
compile_binary_type_compiled m op a b n h =
    elim (Option-cases (expr_lookup_evaluator m op (value_type_mask a ∷ value_type_mask b ∷ []))) [
      | inl e ↦ absurd (ground arith)
      | inr (ev, e) ↦ (ev, λ z. ground arith, λ z. ground arith, e, ground arith)
    ]

unary-Agrees :
    (m : Machine) (op : OpType) (t : Tree) (a n : Node)
    → n_operands op ≡ 1
    → Agrees m t a
    → compile_unary_type m op a ≡ compiled n
    → Agrees m (unary op t) n
unfolding meaning evaluate_value value_type_mask
unary-Agrees m op t a n arity (same, typed) h =
    let (ev, set, found, k) = compile_unary_type_compiled m op a n h in
    let (run, run_typed) =
      unary_run m op ev (value_type_mask a) (evaluate_value a) arity set found typed in
    elim (with_unary ev a n k) [
      | inl e ↦ rw e (run ∙ ap (apply_unary m op) same, run_typed)
      | inr (v, r, ea, er, en) ↦
          let is_run : evaluate_unary ev.eval_fn (evaluate_value a) ≡ returns (ok r) =
            rw (ea, evaluate_unary, er, run_of) refl in
          rw en (
            sym is_run ∙ run ∙ ap (apply_unary m op) same,
            folded_typed ev (ev.eval_fn (v ∷ [])) r er (rw (er, run_of) (rw is_run at run_typed)),
          )
    ]

binary-Agrees :
    (m : Machine) (op : OpType) (t u : Tree) (a b n : Node)
    → n_operands op ≡ 2
    → Agrees m t a
    → Agrees m u b
    → compile_binary_type m op a b ≡ compiled n
    → Agrees m (binary op t u) n
unfolding meaning evaluate_value value_type_mask
binary-Agrees m op t u a b n arity (same_a, typed_a) (same_b, typed_b) h =
    let (ev, set_a, set_b, found, k) = compile_binary_type_compiled m op a b n h in
    let (run, run_typed) =
      binary_run m op ev (value_type_mask a) (value_type_mask b) (evaluate_value a)
        (evaluate_value b) arity set_a set_b found typed_a typed_b in
    let is_meaning : evaluate_binary ev.eval_fn (evaluate_value a) (evaluate_value b)
        ≡ meaning m (binary op t u) =
      run ∙ rw (same_a, same_b) refl in
    elim (with_binary ev a b n k) [
      | inl e ↦ rw e (is_meaning, run_typed)
      | inr (v, w, r, ea, eb, er, en) ↦
          let is_run : evaluate_binary ev.eval_fn (evaluate_value a) (evaluate_value b)
              ≡ returns (ok r) =
            rw (ea, eb, evaluate_binary, er, run_of) refl in
          rw en (
            sym is_run ∙ is_meaning,
            folded_typed ev (ev.eval_fn (v ∷ w ∷ [])) r er
                (rw (er, run_of) (rw is_run at run_typed)),
          )
    ]

compile_unary_compiled :
    (m : Machine) (op : OpType) (c : Compiled) (n : Node)
    → compile_unary m op c ≡ compiled n
    → (a : Node) × (c ≡ compiled a) × (compile_unary_type m op a ≡ compiled n)
unfolding compile_unary
compile_unary_compiled m op (compiled a) n h = (a, refl, h)
compile_unary_compiled m op rejected n h = cc
compile_unary_compiled m op compile_traps n h = cc
compile_unary_compiled m op compile_misreads n h = cc

compile_binary_compiled :
    (m : Machine) (op : OpType) (c d : Compiled) (n : Node)
    → compile_binary m op c d ≡ compiled n
    → (a b : Node) × (c ≡ compiled a)
      × (d ≡ compiled b)
      × (compile_binary_type m op a b ≡ compiled n)
unfolding compile_binary
compile_binary_compiled m op (compiled a) (compiled b) n h = (a, b, refl, refl, h)
compile_binary_compiled m op (compiled a) rejected n h = cc
compile_binary_compiled m op (compiled a) compile_traps n h = cc
compile_binary_compiled m op (compiled a) compile_misreads n h = cc
compile_binary_compiled m op rejected (compiled b) n h = cc
compile_binary_compiled m op rejected rejected n h = cc
compile_binary_compiled m op rejected compile_traps n h = cc
compile_binary_compiled m op rejected compile_misreads n h = cc
compile_binary_compiled m op compile_traps d n h = cc
compile_binary_compiled m op compile_misreads d n h = cc

-- When a well-formed expression of operators compiles, the evaluation of what it is compiled to,
-- with its constant parts computed beforehand, comes to the meaning of the expression; it never reads
-- a value of another type than the value has; and a value that it returns has a type that the
-- compilation declared.
pub compile_tree-evaluate_value :
    (m : Machine) (t : Tree) (n : Node)
    → IsWellFormed t
    → compile_tree m t ≡ compiled n
    → (evaluate_value n ≡ meaning m t) × HasType (value_type_mask n) (evaluate_value n)
unfolding compile_tree meaning evaluate_value value_type_mask
compile_tree-evaluate_value m (native v) n wf h =
    let e : n ≡ native_node v = cc in rw e (refl, value_typed v (type_in_itself v) wf)
compile_tree-evaluate_value m (other mask r) n wf h =
    let e : n ≡ other_node mask r = cc in rw e (refl, wf)
compile_tree-evaluate_value m (unary op t) n (arity, wf) h =
    let (a, c, k) = compile_unary_compiled m op (compile_tree m t) n h in
    unary-Agrees m op t a n arity (compile_tree-evaluate_value m t a wf c) k
compile_tree-evaluate_value m (binary op t u) n (arity, wf_t, wf_u) h =
    let (a, b, c, d, k) = compile_binary_compiled m op (compile_tree m t) (compile_tree m u) n h in
    binary-Agrees m op t u a b n arity (compile_tree-evaluate_value m t a wf_t c)
      (compile_tree-evaluate_value m u b wf_u d) k
