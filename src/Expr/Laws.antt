-- ===== src/Expr/Laws.antt =====
-- Laws of the arithmetic operators.
use bitpunch.Base.{
  ℕ, ◌+◌, ◌-◌, ◌*◌, ◌/◌, ◌%◌, ◌^◌, ◌<◌, ◌≡◌, ◌≢◌, refl, ap, ◌⊎◌, arith, [], ◌∷◌, false,
}
use bitpunch.Base.Int.{ℤ, pos, negsuc, pos_part, neg_part, ◌+ℤ◌, ◌-ℤ◌, ◌*ℤ◌, eqb_ℤ_iff}
use bitpunch.Base.Words.{IsI64, wrap64, to_u64, to_i64}
use bitpunch.Expr.Values.{integer}
use bitpunch.Expr.Trees.{native}
use bitpunch.Expr.Operators.Items.{done}
use bitpunch.Expr.Operators.Integers.{div_traps, div_i64, mod_i64}
use bitpunch.Expr.Operators.Arithmetic.{
  expr_evalop_add_integer_integer, expr_evalop_sub_integer_integer, expr_evalop_div_integer_integer,
  expr_evalop_mod_integer_integer,
}
use package.native.Mathlib.Nat.{div-add-mod', mod-lt}

wrap_sub_add : (a b : ℤ) → IsI64 a → IsI64 b → wrap64 (wrap64 (a +ℤ b) -ℤ b) ≡ a
unfolding wrap64 to_u64 to_i64 ◌+ℤ◌ ◌-ℤ◌
wrap_sub_add (pos a) (pos b) ha hb = ground arith
wrap_sub_add (pos a) (negsuc b) ha hb = ground arith
wrap_sub_add (negsuc a) (pos b) ha hb = ground arith
wrap_sub_add (negsuc a) (negsuc b) ha hb = ground arith

-- The facts of a quotient and a remainder that round to 0.
abbrev pub IsDivision : ℤ → ℤ → ℤ → ℤ → Type 0
IsDivision a b q r =
    (a ≡ q *ℤ b +ℤ r)
    × (pos_part r + neg_part r < pos_part b + neg_part b)
    × ((r ≡ pos 0) ⊎ ((neg_part r ≡ 0) × (neg_part a ≡ 0)) ⊎ ((pos_part r ≡ 0) × (pos_part a ≡ 0)))

div_facts : (x y : ℕ) → 0 < y → (x / y * y + x % y ≡ x) × (x % y < y)
div_facts x y h = (div-add-mod' x y, mod-lt x h)

div_mod : (a b : ℤ) → div_traps a b ≡ false → IsDivision a b (div_i64 a b) (mod_i64 a b)
unfolding div_traps div_i64 mod_i64 ◌*ℤ◌ ◌+ℤ◌
div_mod (pos a) (pos b) h = ground (arith, div_facts a b (ground arith))
div_mod (pos a) (negsuc b) h = ground (arith, div_facts a (b + 1) (omega arith))
div_mod (negsuc a) (pos b) h = ground (arith, div_facts (a + 1) b (ground arith))
div_mod (negsuc a) (negsuc b) h = ground (arith, div_facts (a + 1) (b + 1) (omega arith))

-- Subtraction undoes addition on every two integers, also when the sum wraps around.
sub-add :
    (a b s : ℤ)
    → IsI64 a
    → IsI64 b
    → expr_evalop_add_integer_integer (integer a ∷ integer b ∷ []) ≡ done (integer s)
    → expr_evalop_sub_integer_integer (integer s ∷ integer b ∷ []) ≡ done (integer a)
unfolding expr_evalop_add_integer_integer expr_evalop_sub_integer_integer
sub-add a b s ha hb h =
    let e : s ≡ wrap64 (a +ℤ b) = cc in rw e (ap (λ z. done (integer z)) (wrap_sub_add a b ha hb))

div_traps-false :
    (a b : ℤ) → b ≢ pos 0 → (a ≢ negsuc (2 ^ 63 - 1)) ⊎ (b ≢ negsuc 0) → div_traps a b ≡ false
unfolding div_traps
div_traps-false a b h k =
    ground (arith, eqb_ℤ_iff b (pos 0), eqb_ℤ_iff a (negsuc (2 ^ 63 - 1)), eqb_ℤ_iff b (negsuc 0))

-- Unless the divisor is 0, or -1 with the smallest integer as the dividend, `/` and `%` have values
-- q and r with a = q * b + r, where r is smaller than b in size and has the sign of a, if it is not 0.
pub div-mod :
    (a b : ℤ)
    → b ≢ pos 0
    → (a ≢ negsuc (2 ^ 63 - 1)) ⊎ (b ≢ negsuc 0)
    → (q r : ℤ) × (expr_evalop_div_integer_integer (integer a ∷ integer b ∷ []) ≡ done (integer q))
      × (expr_evalop_mod_integer_integer (integer a ∷ integer b ∷ []) ≡ done (integer r))
      × IsDivision a b q r
unfolding expr_evalop_div_integer_integer expr_evalop_mod_integer_integer
div-mod a b h k =
    let fine = div_traps-false a b h k in
    (div_i64 a b, mod_i64 a b, rw fine refl, rw fine refl, div_mod a b fine)
