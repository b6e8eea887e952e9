-- ===== src/Expr/Order.antt =====
-- The comparison of values is a total order, and the comparison operators agree with it.
use bitpunch.Base.{ℕ, ◌≡◌, refl, ◌↔◌, ap, arith, List, [], ◌∷◌, some}
use bitpunch.Base.Int.{ℤ, pos, ◌-ℤ◌, neg_ℤ, ◌<ℤ◌}
use bitpunch.Expr.Values.{
  Value, integer, string, bytes, sign_of, c_int, compare_bytes, expr_value_cmp,
}

pub sign_of-zero : (a b : ℤ) → (sign_of a b ≡ pos 0) ↔ (a ≡ b)
unfolding sign_of c_int ◌-ℤ◌
sign_of-zero a b = ground arith

pub sign_of-neg : (a b : ℤ) → sign_of b a ≡ neg_ℤ (sign_of a b)
unfolding sign_of c_int ◌-ℤ◌ neg_ℤ
sign_of-neg a b = ground arith

pub sign_of-lt : (a b : ℤ) → (sign_of a b <ℤ pos 0) ↔ (a <ℤ b)
unfolding sign_of c_int ◌-ℤ◌
sign_of-lt a b = ground arith

pub compare_bytes-zero : (s t : List ℕ) → (compare_bytes s t ≡ pos 0) ↔ (s ≡ t)
unfolding compare_bytes sign_of c_int ◌-ℤ◌
compare_bytes-zero [] [] = ground arith
compare_bytes-zero [] (y ∷ ys) = ground arith
compare_bytes-zero (x ∷ xs) [] = ground arith
compare_bytes-zero (x ∷ xs) (y ∷ ys) = ground (arith, compare_bytes-zero xs ys)

pub compare_bytes-neg : (s t : List ℕ) → compare_bytes t s ≡ neg_ℤ (compare_bytes s t)
unfolding compare_bytes sign_of c_int ◌-ℤ◌ neg_ℤ
compare_bytes-neg [] [] = ground arith
compare_bytes-neg [] (y ∷ ys) = ground arith
compare_bytes-neg (x ∷ xs) [] = ground arith
compare_bytes-neg (x ∷ xs) (y ∷ ys) = ground (arith, compare_bytes-neg xs ys)

pub compare_bytes-trans :
    (s t u : List ℕ)
    → compare_bytes s t <ℤ pos 0
    → compare_bytes t u <ℤ pos 0
    → compare_bytes s u <ℤ pos 0
unfolding compare_bytes sign_of c_int ◌-ℤ◌
compare_bytes-trans [] [] u h k = ground arith
compare_bytes-trans [] (y ∷ ys) [] h k = ground arith
compare_bytes-trans [] (y ∷ ys) (z ∷ zs) h k = ground arith
compare_bytes-trans (x ∷ xs) [] u h k = ground arith
compare_bytes-trans (x ∷ xs) (y ∷ ys) [] h k = ground arith
compare_bytes-trans (x ∷ xs) (y ∷ ys) (z ∷ zs) h k = ground (arith, compare_bytes-trans xs ys zs)

data Comparable : Value → Value → ℤ → Type 0 where
  integers : (a b : ℤ) → Comparable (integer a) (integer b) (sign_of a b)
  strings : (s t : List ℕ) → Comparable (string s) (string t) (compare_bytes s t)
  byte_strings : (s t : List ℕ) → Comparable (bytes s) (bytes t) (compare_bytes s t)

comparable : (v w : Value) (c : ℤ) → expr_value_cmp v w ≡ some c → Comparable v w c
unfolding expr_value_cmp
comparable (integer a) (integer b) c h = let e : c ≡ sign_of a b = cc in rw e (integers a b)
comparable (string s) (string t) c h = let e : c ≡ compare_bytes s t = cc in rw e (strings s t)
comparable (bytes s) (bytes t) c h = let e : c ≡ compare_bytes s t = cc in rw e (byte_strings s t)
comparable v w c h = cc

-- When two values can be compared, the result is 0 exactly if they are the same value, and the
-- comparison the other way round has the opposite result.
pub expr_value_cmp_antisymmetric :
    (v w : Value) (c : ℤ)
    → expr_value_cmp v w ≡ some c
    → ((c ≡ pos 0) ↔ (v ≡ w)) × (expr_value_cmp w v ≡ some (neg_ℤ c))
unfolding expr_value_cmp
expr_value_cmp_antisymmetric v w c h = go v w c (comparable v w c h)
  where
    go :
        (v w : Value) (c : ℤ)
        → Comparable v w c
        → ((c ≡ pos 0) ↔ (v ≡ w)) × (expr_value_cmp w v ≡ some (neg_ℤ c))
    go _ _ _ (integers a b) = (ground (arith, sign_of-zero a b), ap some (sign_of-neg a b))
    go _ _ _ (strings s t) =
        (ground (arith, compare_bytes-zero s t), ap some (compare_bytes-neg s t))
    go _ _ _ (byte_strings s t) =
        (ground (arith, compare_bytes-zero s t), ap some (compare_bytes-neg s t))

-- When a value is less than a second one, and that is less than a third one, then the first can be
-- compared with the third and is less than it.
expr_value_cmp_transitive :
    (v w u : Value) (c d : ℤ)
    → expr_value_cmp v w ≡ some c
    → expr_value_cmp w u ≡ some d
    → c <ℤ pos 0
    → d <ℤ pos 0
    → (e : ℤ) × (expr_value_cmp v u ≡ some e) × (e <ℤ pos 0)
unfolding expr_value_cmp
expr_value_cmp_transitive v w u c d h k = go v w u c d (comparable v w c h) (comparable w u d k)
  where
    go :
        (v w u : Value) (c d : ℤ)
        → Comparable v w c
        → Comparable w u d
        → c <ℤ pos 0
        → d <ℤ pos 0
        → (e : ℤ) × (expr_value_cmp v u ≡ some e) × (e <ℤ pos 0)
    go _ _ _ _ _ (integers a b) (integers _ z) x y =
        (sign_of a z, refl, ground (arith, sign_of-lt a b, sign_of-lt b z, sign_of-lt a z))
    go _ _ _ _ _ (strings s t) (strings _ r) x y =
        (compare_bytes s r, refl, compare_bytes-trans s t r x y)
    go _ _ _ _ _ (byte_strings s t) (byte_strings _ r) x y =
        (compare_bytes s r, refl, compare_bytes-trans s t r x y)
