-- ===== src/Expr/Lookup/Typed.antt =====
-- Items whose operands are all of one type.
use bitpunch.Base.{ℕ, ◌≡◌, refl, ◌≢◌, inl, inr, arith, List, [], ◌∷◌}
use bitpunch.Base.Int.{ℤ}
use bitpunch.Expr.Values.{
  Value, integer, boolean, string, value_type, type_integer, type_boolean, type_string,
}
use bitpunch.Expr.Operators.Items.{OpType, Evaluator}
use bitpunch.Expr.Trees.{n_operands}
use bitpunch.Expr.Lookup.{IsGood, IsSound, sound1, sound2, as_integer, as_boolean, as_string}

pub integer_set : type_integer ≢ 0
integer_set e = omega (arith, e)

pub boolean_set : type_boolean ≢ 0
boolean_set e = omega (arith, e)

module _ (ev : Evaluator) where
  one_integer :
      ((a : ℤ) → IsGood ev (ev.eval_fn (integer a ∷ [])))
      → (v : Value) → value_type v ≡ type_integer
      → IsGood ev (ev.eval_fn (v ∷ []))
  one_integer good v h = let (a, e) = as_integer v h in rw e (good a)

  two_integer :
      ((a b : ℤ) → IsGood ev (ev.eval_fn (integer a ∷ integer b ∷ [])))
      → (v w : Value) → value_type v ≡ type_integer
      → value_type w ≡ type_integer
      → IsGood ev (ev.eval_fn (v ∷ w ∷ []))
  two_integer good v w h k =
      let (a, e) = as_integer v h in let (b, f) = as_integer w k in rw (e, f) (good a b)

  one_boolean :
      ((a : ℤ) → IsGood ev (ev.eval_fn (boolean a ∷ [])))
      → (v : Value) → value_type v ≡ type_boolean
      → IsGood ev (ev.eval_fn (v ∷ []))
  one_boolean good v h = let (a, e) = as_boolean v h in rw e (good a)

  two_boolean :
      ((a b : ℤ) → IsGood ev (ev.eval_fn (boolean a ∷ boolean b ∷ [])))
      → (v w : Value) → value_type v ≡ type_boolean
      → value_type w ≡ type_boolean
      → IsGood ev (ev.eval_fn (v ∷ w ∷ []))
  two_boolean good v w h k =
      let (a, e) = as_boolean v h in let (b, f) = as_boolean w k in rw (e, f) (good a b)

  two_string :
      ((a b : List ℕ) → IsGood ev (ev.eval_fn (string a ∷ string b ∷ [])))
      → (v w : Value) → value_type v ≡ type_string
      → value_type w ≡ type_string
      → IsGood ev (ev.eval_fn (v ∷ w ∷ []))
  two_string good v w h k =
      let (a, e) = as_string v h in let (b, f) = as_string w k in rw (e, f) (good a b)

module _ (op : OpType) (ev : Evaluator) where
  pub integer-IsSound :
      n_operands op ≡ 1
      → ((a : ℤ) → IsGood ev (ev.eval_fn (integer a ∷ [])))
      → IsSound (record { op_type = op; n_opd = 1; opd_types = type_integer ∷ []; evaluator = ev })
  integer-IsSound arity good = sound1 op type_integer ev (inl refl) arity (one_integer ev good)

  pub integers-IsSound :
      n_operands op ≡ 2
      → ((a b : ℤ) → IsGood ev (ev.eval_fn (integer a ∷ integer b ∷ [])))
      → IsSound (record {
        op_type = op;
        n_opd = 2;
        opd_types = type_integer ∷ type_integer ∷ [];
        evaluator = ev;
      })
  integers-IsSound arity good = sound2 op type_integer ev (inl refl) arity (two_integer ev good)

  pub boolean-IsSound :
      n_operands op ≡ 1
      → ((a : ℤ) → IsGood ev (ev.eval_fn (boolean a ∷ [])))
      → IsSound (record { op_type = op; n_opd = 1; opd_types = type_boolean ∷ []; evaluator = ev })
  boolean-IsSound arity good =
      sound1 op type_boolean ev (inr (inl refl)) arity (one_boolean ev good)

  pub booleans-IsSound :
      n_operands op ≡ 2
      → ((a b : ℤ) → IsGood ev (ev.eval_fn (boolean a ∷ boolean b ∷ [])))
      → IsSound (record {
        op_type = op;
        n_opd = 2;
        opd_types = type_boolean ∷ type_boolean ∷ [];
        evaluator = ev;
      })
  booleans-IsSound arity good =
      sound2 op type_boolean ev (inr (inl refl)) arity (two_boolean ev good)

  pub strings-IsSound :
      n_operands op ≡ 2
      → ((a b : List ℕ) → IsGood ev (ev.eval_fn (string a ∷ string b ∷ [])))
      → IsSound (record {
        op_type = op;
        n_opd = 2;
        opd_types = type_string ∷ type_string ∷ [];
        evaluator = ev;
      })
  strings-IsSound arity good = sound2 op type_string ev (inr (inr refl)) arity (two_string ev good)
