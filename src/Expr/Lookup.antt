-- ===== src/Expr/Lookup.antt =====
-- What the search for an operator's evaluator guarantees.
pub mod Typed
pub mod Comparisons
pub mod Logic
pub mod Arithmetic
pub mod Items
use bitpunch.Base.{
  ℕ, zero, suc, ◌+◌, ◌*◌, ◌/◌, ◌%◌, ◌^◌, ◌≡◌, refl, sym, ap, ◌∙◌, ◌≢◌, ◌⊎◌, inl, inr, arith,
}
use bitpunch.Base.{
  List, [], ◌∷◌, All, Bool, true, ◌&&◌, ◌==◌, bit_and, Option, none, some, if◌then◌else◌,
  Bool-cases,
}
use bitpunch.Base.Bits.{bit_and-shift, bit_and-mask}
use bitpunch.Base.Int.{ℤ}
use bitpunch.Base.Machine.{Machine}
use bitpunch.Expr.Values.{
  Value, unset, integer, boolean, string, bytes, data_source, data_range, value_type, type_integer,
  type_boolean, type_string,
}
use bitpunch.Expr.Operators.Items.{OpType, Outcome, done, trap, Evaluator, MatchItem}
use bitpunch.Expr.Operators.Table.{
  operands_match, lookup_items, expr_lookup_evaluator, op_code, expr_evalop_match_items,
}
use bitpunch.Expr.Trees.{n_operands}

-- The types in `t` are among those in `mask`.
infix 50 ◌⊆◌
abbrev pub ◌⊆◌ : ℕ → ℕ → Type 0
t ⊆ mask = bit_and t mask ≡ t

abbrev IsSingle : ℕ → Type 0
IsSingle t = (t ≡ type_integer) ⊎ (t ≡ type_boolean) ⊎ (t ≡ type_string)

single_mask : (t mask : ℕ) → IsSingle mask → t ⊆ mask → t ≢ 0 → t ≡ mask
single_mask t mask (inl e) h ne = omega (arith, e, bit_and-mask 1 t, ap (bit_and t) e)
single_mask t mask (inr (inl e)) h ne =
    omega (arith, e, bit_and-shift 1 t 1, bit_and-mask 1 (t / 2 ^ 1), ap (bit_and t) e)
single_mask t mask (inr (inr e)) h ne =
    omega (arith, e, bit_and-shift 2 t 1, bit_and-mask 1 (t / 2 ^ 2), ap (bit_and t) e)

as_integer : (v : Value) → value_type v ≡ type_integer → (a : ℤ) × (v ≡ integer a)
unfolding value_type
as_integer (integer a) h = (a, refl)
as_integer unset h = absurd (omega arith)
as_integer (boolean a) h = absurd (omega arith)
as_integer (string s) h = absurd (omega arith)
as_integer (bytes s) h = absurd (omega arith)
as_integer (data_source s) h = absurd (omega arith)
as_integer (data_range s a b) h = absurd (omega arith)

as_boolean : (v : Value) → value_type v ≡ type_boolean → (a : ℤ) × (v ≡ boolean a)
unfolding value_type
as_boolean (boolean a) h = (a, refl)
as_boolean unset h = absurd (omega arith)
as_boolean (integer a) h = absurd (omega arith)
as_boolean (string s) h = absurd (omega arith)
as_boolean (bytes s) h = absurd (omega arith)
as_boolean (data_source s) h = absurd (omega arith)
as_boolean (data_range s a b) h = absurd (omega arith)

as_string : (v : Value) → value_type v ≡ type_string → (s : List ℕ) × (v ≡ string s)
unfolding value_type
as_string (string s) h = (s, refl)
as_string unset h = absurd (omega arith)
as_string (integer a) h = absurd (omega arith)
as_string (boolean a) h = absurd (omega arith)
as_string (bytes s) h = absurd (omega arith)
as_string (data_source s) h = absurd (omega arith)
as_string (data_range s a b) h = absurd (omega arith)

-- An outcome is a value of the evaluator's type, or a trap.
abbrev pub IsGood : Evaluator → Outcome → Type 0
IsGood ev o =
    ((v : Value) × (o ≡ done v) × (value_type v ≡ ev.res_type_mask) × (value_type v ≢ 0))
    ⊎ (o ≡ trap)

-- What is asked of an item with one operand, and with two: on operands of types that it takes, the
-- types are the ones that the values have, and the outcome is good.
abbrev IsSound1 : MatchItem → Type 0
IsSound1 item =
    (t : ℕ) (v : Value)
    → operands_match item.n_opd 0 (t ∷ []) item.opd_types ≡ true
    → t ≢ 0
    → value_type v ⊆ t
    → value_type v ≢ 0
    → (t ≡ value_type v) × IsGood item.evaluator (item.evaluator.eval_fn (v ∷ []))

abbrev IsSound2 : MatchItem → Type 0
IsSound2 item =
    (t u : ℕ) (v w : Value)
    → operands_match item.n_opd 0 (t ∷ u ∷ []) item.opd_types ≡ true
    → t ≢ 0
    → u ≢ 0
    → value_type v ⊆ t
    → value_type v ≢ 0
    → value_type w ⊆ u
    → value_type w ≢ 0
    → (t ≡ value_type v)
      × (u ≡ value_type w)
      × IsGood item.evaluator (item.evaluator.eval_fn (v ∷ w ∷ []))

abbrev pub IsSound : MatchItem → Type 0
IsSound item =
    ((n_operands item.op_type ≡ 1) × IsSound1 item)
    ⊎ ((n_operands item.op_type ≡ 2) × IsSound2 item)

module _ (op : OpType) (ty : ℕ) (ev : Evaluator) (single : IsSingle ty) where
  sound1 :
      n_operands op ≡ 1
      → ((v : Value) → value_type v ≡ ty → IsGood ev (ev.eval_fn (v ∷ [])))
      → IsSound (record { op_type = op; n_opd = 1; opd_types = ty ∷ []; evaluator = ev })
  unfolding operands_match
  sound1 arity good = inl (
    arity,
    λ t v matched t_set sub v_set.
        let e : t ≡ ty = single_mask t ty single (ground arith) t_set in
        let f : value_type v ≡ ty = single_mask (value_type v) ty single (rw (sym e) sub) v_set in
        (e ∙ sym f, good v f),
  )

  sound2 :
      n_operands op ≡ 2
      → ((v w : Value)
          → value_type v ≡ ty
          → value_type w ≡ ty
          → IsGood ev (ev.eval_fn (v ∷ w ∷ [])))
      → IsSound (record { op_type = op; n_opd = 2; opd_types = ty ∷ ty ∷ []; evaluator = ev })
  unfolding operands_match
  sound2 arity good = inr (
    arity,
    λ t u v w matched t_set u_set sub_v v_set sub_w w_set.
        let e : t ≡ ty = single_mask t ty single (ground arith) t_set in
        let g : u ≡ ty = single_mask u ty single (ground arith) u_set in
        let f : value_type v ≡ ty = single_mask (value_type v) ty single (rw (sym e) sub_v) v_set in
        let h : value_type w ≡ ty = single_mask (value_type w) ty single (rw (sym g) sub_w) w_set in
        (e ∙ sym f, g ∙ sym h, good v w f h),
  )

-- What is found is the evaluator of an item for the operator that takes the types.
pub lookup_items-found :
    (op : OpType) (types : List ℕ) (items : List MatchItem) (ev : Evaluator)
    → All IsSound items
    → lookup_items op types items ≡ some ev
    → (item : MatchItem) × IsSound item
      × (op_code item.op_type ≡ op_code op)
      × (operands_match item.n_opd 0 types item.opd_types ≡ true)
      × (item.evaluator ≡ ev)
unfolding lookup_items
lookup_items-found op types [] ev sound h = cc
lookup_items-found op types (item ∷ items) ev (first, sound) h =
    elim (Bool-cases
      ((op_code item.op_type == op_code op) && operands_match item.n_opd 0 types item.opd_types)) [
        | inl e ↦ (item, first, ground arith, ground arith, ground arith)
        | inr e ↦ lookup_items-found op types items ev sound (rw e at h)
      ]
