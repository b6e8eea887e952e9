-- ===== src/Arrays/IndexCache/Passing.antt =====
-- A round of the search for a key: the test of the key, and the caching of the item.
use mathlib.Core.Path.{subst}
use bitpunch.Base.{
  ℕ, zero, suc, ◌≤◌, ◌<◌, ◌≡◌, ◌≢◌, ◌∙◌, refl, sym, ap, ◌⊎◌, inl, inr, arith, Bool, true, false,
  ◌==◌, if◌then◌else◌, some, Bool-cases,
}
use bitpunch.Base.Int.{ℤ, pos, eqb_ℤ, eqb_ℤ_iff, ◌+ℤ◌}
use bitpunch.Status.{Result, ok, err, no_item}
use bitpunch.Expr.Values.{Value, expr_value_cmp}
use bitpunch.Expr.Order.{expr_value_cmp_antisymmetric}
use bitpunch.Arrays.Tracker.{Tracker, TrackPath, path_index}
use bitpunch.Arrays.IndexCache.{
  tracker_goto_next_item_internal, andthen, index_of, Items, State, tracker_index_cache_add_item,
}
use bitpunch.Arrays.IndexCache.Match.{key_is, cached, at_boundary, match_loop}
use bitpunch.Arrays.IndexCache.Placed.{Contents, IsAt, before}
use bitpunch.Arrays.IndexCache.Coherent.{IsCoherent, add_item-IsCoherent}

pub match_done :
    (a : Items) (wanted key : Value) (b : TrackPath) (left : ℕ) (s : State)
    → at_boundary b s ≡ false
    → a.item_key s.tk ≡ ok key
    → key_is key wanted ≡ ok true
    → match_loop a wanted b (suc left) s ≡ (ok tt, cached key s)
unfolding match_loop
match_done a wanted key b left s e e' e'' = rw (e, e', e'') refl

pub match_next :
    (a : Items) (wanted key : Value) (b : TrackPath) (left : ℕ) (s : State) (r : Result (Unit {0}))
    (tk : Tracker)
    → at_boundary b s ≡ false
    → a.item_key s.tk ≡ ok key
    → key_is key wanted ≡ ok false
    → tracker_goto_next_item_internal a (cached key s).tk ≡ (r, tk)
    → match_loop a wanted b (suc left) s
      ≡ andthen (r, record { tk = tk; cache = (cached key s).cache }) (match_loop a wanted b left)
unfolding match_loop
match_next a wanted key b left s r tk e e' e'' next = rw (e, e', e'', next) refl

pub match_at_boundary :
    (a : Items) (wanted : Value) (b : TrackPath) (left : ℕ) (s : State)
    → at_boundary b s ≡ true
    → match_loop a wanted b (suc left) s ≡ (err no_item, s)
unfolding match_loop
match_at_boundary a wanted b left s e = rw e refl

key_is-eq :
    (key wanted : Value) (c : ℤ)
    → expr_value_cmp key wanted ≡ some c
    → key_is key wanted ≡ ok (eqb_ℤ c (pos 0))
key_is-eq key wanted c e = cc

-- The test of a key tells whether it is the one that is wanted.
pub key_is-cases :
    (key wanted : Value) (c : ℤ)
    → expr_value_cmp key wanted ≡ some c
    → ((key ≡ wanted) × (key_is key wanted ≡ ok true))
      ⊎ ((key ≢ wanted) × (key_is key wanted ≡ ok false))
key_is-cases key wanted c e =
    let (same, other) = expr_value_cmp_antisymmetric key wanted c e in
    elim (Bool-cases (eqb_ℤ c (pos 0))) [
      | inl zero_c ↦
          inl (same.0 ((eqb_ℤ_iff c (pos 0)).0 zero_c), key_is-eq key wanted c e ∙ ap ok zero_c)
      | inr nonzero ↦ inr (
        (λ equal.
            let is_zero = (eqb_ℤ_iff c (pos 0)).1 (same.1 equal) in
            let absurdity : ⊥ = cc in elim absurdity [ ]),
        key_is-eq key wanted c e ∙ ap ok nonzero,
      )
    ]

pub cached-tk : (key : Value) (s : State) → (cached key s).tk ≡ s.tk
unfolding tracker_index_cache_add_item
cached-tk key s = ground arith

is_next-eq : (i c : ℕ) → eqb_ℤ (pos i) (before c +ℤ pos 1) ≡ (i == c)
unfolding ◌+ℤ◌
is_next-eq i zero = ground arith
is_next-eq i (suc c) = ground arith

cached-eq :
    (items : Contents) (i c : ℕ) (s : State)
    → IsCoherent items c s.cache
    → IsAt items i s.tk
    → cached (items.key i) s ≡ (if i == c then tracker_index_cache_add_item (items.key i) s else s)
cached-eq items i c s v place =
    let test : eqb_ℤ (index_of s) (s.cache.last_cached_index +ℤ pos 1) ≡ (i == c) =
      ap (λ path. eqb_ℤ (path_index path) (s.cache.last_cached_index +ℤ pos 1)) place.cur
      ∙ ap (λ last. eqb_ℤ (pos i) (last +ℤ pos 1)) v.last
      ∙ is_next-eq i c in
    ap (λ (b : Bool). if b then tracker_index_cache_add_item (items.key i) s else s) test

-- An item that is passed is cached from then on.
pub cached-HasGrown :
    (n i c : ℕ) (items : Contents) (s : State)
    → IsCoherent items c s.cache
    → IsAt items i s.tk
    → i ≤ c
    → c ≤ n
    → i < n
    → (c' : ℕ) × (c ≤ c')
      × (suc i ≤ c')
      × (c' ≤ n)
      × IsCoherent items c' (cached (items.key i) s).cache
cached-HasGrown n i c items s v place le most inside =
    let eq = cached-eq items i c s v place in
    elim (Bool-cases (i == c)) [
      | inl new ↦
          let same : i ≡ c = ground arith in
          (
            suc c,
            omega arith,
            omega arith,
            omega arith,
            subst (λ (s' : State). IsCoherent items (suc c) s'.cache)
                (sym (
                  eq
                  ∙ ap (λ (b : Bool). if b then tracker_index_cache_add_item (items.key i) s else s)
                      new
                  ∙ ap (λ (j : ℕ). tracker_index_cache_add_item (items.key j) s) same))
                (add_item-IsCoherent items c s v (subst (λ (j : ℕ). IsAt items j s.tk) same place)),
          )
      | inr old ↦ (
        c,
        omega arith,
        ground arith,
        most,
        subst (λ (s' : State). IsCoherent items c s'.cache)
            (sym (
              eq
              ∙ ap (λ (b : Bool). if b then tracker_index_cache_add_item (items.key i) s else s)
                  old))
            v,
      )
    ]
