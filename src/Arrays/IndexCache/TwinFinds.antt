-- ===== src/Arrays/IndexCache/TwinFinds.antt =====
-- The search from mark to mark finds the first cached item with a key.
use mathlib.Core.Path.{subst}
use bitpunch.Base.{
  ℕ, zero, suc, ◌+◌, ◌*◌, ◌≤◌, ◌<◌, ◌≡◌, refl, sym, inl, inr, arith, Bool, true, false, Option,
}
use bitpunch.Status.{Result, err, no_item}
use bitpunch.Expr.Values.{Value}
use bitpunch.Arrays.Tracker.{Tracker}
use bitpunch.Arrays.IndexCache.{ArrayCache, Items, State}
use bitpunch.Arrays.IndexCache.Twins.{find_behind_mark, same_mark, twin_loop, after_mark}
use bitpunch.Arrays.IndexCache.Placed.{Contents, IsAt}
use bitpunch.Arrays.IndexCache.Coherent.{IsCoherent}
use bitpunch.Arrays.IndexCache.Searched.{IsIndexed, IsAbsent, HasSearched}
use bitpunch.Arrays.IndexCache.MarkFinds.{iter_at, find_behind_mark-searches}
use bitpunch.Arrays.IndexCache.TwinLookup.{twins_at, HasLookedUp, lookup-earlier, go_on}

module _ (a : Items) (n : ℕ) (items : Contents) (wanted : Value) (v : IsIndexed a n items wanted)
    (start : ℕ) where
  after_mark-searches :
      (left m lo c : ℕ) (from : Option ℕ) (first : Bool) (r : Result (Unit {0}) × State)
      → HasSearched n items wanted lo ((m + 1) * 32) c r
      → m * 32 < c
      → ((m' c' : ℕ) (tk : Tracker) (cache : ArrayCache)
          → m < m'
          → m' * 32 < c'
          → c' ≤ n
          → IsCoherent items c' cache
          → IsAt items (m' * 32) tk
          → IsAbsent n items wanted lo (m' * 32)
          → HasLookedUp a n items wanted v start lo c' (
              twin_loop a left (
                twins_at a n items wanted v start m' from first
                  (record { tk = tk; cache = cache }))))
      → HasLookedUp a n items wanted v start lo c
          (after_mark (twin_loop a left) a r.0 (twins_at a n items wanted v start m from first r.1))
  after_mark-searches left m lo c from first (r, s) (inl hit) held search =
      let first' = hit.first in
      subst
        (λ (q : Result (Unit {0})).
          HasLookedUp a n items wanted v start lo c
            (after_mark (twin_loop a left) a q (twins_at a n items wanted v start m from first s)))
        (sym hit.found)
        (inl (record {
          j = hit.j;
          mark = m;
          first = record {
            from = first'.from;
            to = first'.inside;
            inside = first'.inside;
            here = first'.here;
            earlier = first'.earlier;
          };
          found = refl;
          iter = refl;
          place = hit.place;
          before_next = first'.to;
          grown = hit.grown;
          known = hit.known;
          held = let grown = hit.grown in omega (arith, grown.least);
        }))
  after_mark-searches left m lo c from first (r, s) (inr miss) held search =
      let grown = miss.grown in
      let grow = grown.least in
      subst
        (λ (q : Result (Unit {0})).
          HasLookedUp a n items wanted v start lo c
            (after_mark (twin_loop a left) a q (twins_at a n items wanted v start m from first s)))
        (sym miss.none_found)
        (lookup-earlier a n items wanted v start lo c grown.count
          (after_mark (twin_loop a left) a (err no_item)
            (twins_at a n items wanted v start m from first s))
          grow
          (go_on a n items wanted v start left m lo grown.count from first s
            (λ m' tk next held' place' passed'.
              search m' grown.count tk s.cache next held' grown.most grown.coherent place' passed')
            (omega arith) grown.most grown.coherent miss.forward miss.absent))

  pub twin_loop-searches :
      (left m i lo c : ℕ) (from : Option ℕ) (first : Bool) (s : State)
      → n < m + left
      → i ≤ c
      → c ≤ n
      → i < n
      → m * 32 < c
      → i ≤ (m + 1) * 32
      → IsCoherent items c s.cache
      → IsAt items i s.tk
      → IsAbsent n items wanted lo i
      → (same_mark m from ≡ true → (i ≤ start) × (lo ≡ start))
      → (same_mark m from ≡ false → lo ≤ i)
      → ((m' : ℕ) → m < m' → (same_mark m' from ≡ false) × (lo ≤ m' * 32))
      → HasLookedUp a n items wanted v start lo c
          (twin_loop a left (twins_at a n items wanted v start m from first s))
  unfolding twin_loop
  twin_loop-searches zero m i lo c from first s enough le most inside held before_e w place passed
        at_start behind later =
      let absurdity : ⊥ = omega arith in elim absurdity [ ]
  twin_loop-searches (suc left) m i lo c from first s enough le most inside held before_e w place
        passed at_start behind later =
      after_mark-searches left m lo c from first
        (find_behind_mark a (iter_at a n items wanted v start m from first) m s)
        (find_behind_mark-searches a n items wanted v start m i lo c from first s le most inside
          before_e w place passed at_start behind)
        held
        (λ m' c' tk cache next held' most' w' place' passed'.
          let (other, lo_before) = later m' next in
          twin_loop-searches left m' (m' * 32) lo c' from first (record { tk = tk; cache = cache })
            (omega arith) (omega arith) most' (omega arith) held' (omega arith) w' place' passed'
            (λ same. let absurdity : ⊥ = cc in elim absurdity [ ]) (λ e. lo_before)
            (λ m'' next'. later m'' (omega arith)))
