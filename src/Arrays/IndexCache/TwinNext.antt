-- ===== src/Arrays/IndexCache/TwinNext.antt =====
-- The twin behind a twin.
use mathlib.Core.Path.{subst}
use bitpunch.Base.{
  ℕ, suc, ◌+◌, ◌*◌, ◌≤◌, ◌<◌, ◌≡◌, refl, sym, inl, inr, arith, false, ◌==◌, none, Bool-cases,
}
use bitpunch.Status.{Result, ok, err}
use bitpunch.Expr.Values.{Value}
use bitpunch.Arrays.IndexCache.{Items, State, moved, go_next}
use bitpunch.Arrays.IndexCache.Twins.{Twins, twin_loop, index_cache_iterator_next_twin}
use bitpunch.Arrays.IndexCache.Placed.{Contents, IsAt}
use bitpunch.Arrays.IndexCache.Coherent.{IsCoherent}
use bitpunch.Arrays.IndexCache.Searched.{IsIndexed, next-place, last-forward, empty_range}
use bitpunch.Arrays.IndexCache.TwinFinds.{twin_loop-searches}
use bitpunch.Arrays.IndexCache.TwinLookup.{twins_at, IsTwin, HasLookedUp}

module _ (a : Items) (n : ℕ) (items : Contents) (wanted : Value) (v : IsIndexed a n items wanted)
    (start : ℕ) where
  -- The search for a twin behind the item that the tracker is at.
  abbrev continue : ℕ → Result (Unit {0}) × State → Result (Unit {0}) × Twins
  continue m (r, s) = elim r [
    | err e ↦ (err e, twins_at a n items wanted v start m none false s)
    | ok done ↦ twin_loop a a.max_rounds (twins_at a n items wanted v start m none false s)
  ]

  next_twin-eq :
      (m : ℕ) (s : State)
      → index_cache_iterator_next_twin a (twins_at a n items wanted v start m none false s)
        ≡ continue m (go_next a s)
  unfolding index_cache_iterator_next_twin
  next_twin-eq m s = refl

  behind_twin-searches :
      (m j c : ℕ) (s : State)
      → j < n
      → j < c
      → m * 32 < c
      → c ≤ n
      → j < (m + 1) * 32
      → IsCoherent items c s.cache
      → IsAt items j s.tk
      → HasLookedUp a n items wanted v start (suc j) c (continue m (go_next a s))
  behind_twin-searches m j c s inside known held most before_next w place =
      elim (Bool-cases (suc j == n)) [
        | inl end ↦
            let same : suc j ≡ n = ground arith in
            let (tk, ended, forward) = last-forward a n items wanted v (suc j) s.tk place same in
            subst
              (λ p. HasLookedUp a n items wanted v start (suc j) c (continue m (moved s.cache p)))
              (sym ended)
              (inr (record {
                none_found = refl;
                grown = record { count = c; least = omega arith; most = most; coherent = w };
                absent = empty_range n items wanted (suc j) c (omega arith);
              }))
        | inr within ↦
            let more : suc j < n = ground arith in
            let rounds = v.rounds in
            let (tk, next, place') = next-place a n items wanted v (suc j) s.tk place more in
            subst
              (λ p. HasLookedUp a n items wanted v start (suc j) c (continue m (moved s.cache p)))
              (sym next)
              (twin_loop-searches a n items wanted v start a.max_rounds m (suc j) (suc j) c none
                false (record { tk = tk; cache = s.cache }) (omega arith) (omega arith) most more
                held (omega arith) w place'
                (empty_range n items wanted (suc j) (suc j) (omega arith))
                (λ same. let absurdity : ⊥ = cc in elim absurdity [ ]) (λ other. omega arith)
                (λ m' later. (refl, omega arith)))
      ]

  pub next_twin-searches :
      (lo c : ℕ) (r : Result (Unit {0})) (t : Twins)
      (twin : IsTwin a n items wanted v start lo c r t)
      → let grown = twin.grown in
        HasLookedUp a n items wanted v start
          (suc twin.j)
          grown.count
          (index_cache_iterator_next_twin a t)
  next_twin-searches lo c r t twin =
      let grown = twin.grown in
      let first = twin.first in
      subst
        (λ iter.
          HasLookedUp a n items wanted v start (suc twin.j) grown.count
            (index_cache_iterator_next_twin a (record { iter = iter; at = t.at })))
        (sym twin.iter)
        (subst (HasLookedUp a n items wanted v start (suc twin.j) grown.count)
          (sym (next_twin-eq twin.mark t.at))
          (behind_twin-searches twin.mark twin.j grown.count t.at first.inside twin.known twin.held
            grown.most twin.before_next grown.coherent twin.place))
