-- ===== src/Arrays/IndexCache/NthFinds.antt =====
-- The move to an item of variable size by its index, from the nearest mark or from the last cached
-- item.
use mathlib.Core.Path.{subst}
use bitpunch.Base.{
  ℕ, zero, suc, ◌+◌, ◌≤◌, ◌<◌, ◌≡◌, ◌∙◌, refl, sym, ap, inl, inr, arith, Bool, true, false, ◌==◌,
  if◌then◌else◌, Option, none, some, Bool-cases,
}
use bitpunch.Base.Int.{pos, eqb_ℤ, ◌+ℤ◌}
use bitpunch.Status.{Result, ok}
use bitpunch.Expr.Values.{Value}
use bitpunch.Arrays.Tracker.{Tracker, path_index}
use bitpunch.Utils.Bloom.{Book}
use bitpunch.Arrays.IndexCache.{Items, State, andthen, moved, go_next, index_of, index_cache_exists}
use bitpunch.Arrays.IndexCache.Match.{cached}
use bitpunch.Arrays.IndexCache.ItemKey.{
  tracker_get_item_key_internal, tracker_get_item_key__indexed_array,
  tracker_get_item_key__indexed_array_internal,
}
use bitpunch.Arrays.IndexCache.Nth.{cache_next, nth_loop}
use bitpunch.Arrays.IndexCache.Placed.{Contents, IsAt}
use bitpunch.Arrays.IndexCache.Coherent.{IsCoherent}
use bitpunch.Arrays.IndexCache.Searched.{IsIndexed, next-place}
use bitpunch.Arrays.IndexCache.Passing.{cached-tk, cached-HasGrown}
use bitpunch.Arrays.IndexCache.TwinsBefore.{eqb_pos}

module _ (a : Items) (n : ℕ) (items : Contents) (wanted : Value) (v : IsIndexed a n items wanted)
    (new : Tracker) where
  get_key-eq :
      (i : ℕ) (s : State)
      → IsAt items i s.tk
      → i < n
      → tracker_get_item_key_internal a new s ≡ (ok (items.key i, none), s)
  unfolding tracker_get_item_key_internal tracker_get_item_key__indexed_array
      tracker_get_item_key__indexed_array_internal
  get_key-eq i s place inside =
      let at = place.cur in
      let standing = place.filter in
      let evaluated = v.keys i s.tk place inside in
      let keyed = v.keyed in ground (arith, at, evaluated, keyed, standing)

  cache_next-eq :
      (i c : ℕ) (s : State)
      → IsCoherent items c s.cache
      → IsAt items i s.tk
      → i < n
      → cache_next a new s ≡ (ok tt, cached (items.key i) s)
  cache_next-eq i c s w place inside =
      let read = get_key-eq i s place inside in
      let exists : index_cache_exists s.cache ≡ true =
        ap (λ (o : Option Book). elim o as (λ _. Bool) [ some book ↦ true | none ↦ false ])
          w.indexed in
      elim (Bool-cases (eqb_ℤ (index_of s) (s.cache.last_cached_index +ℤ pos 1))) [
        | inl next ↦ rw (next, exists, read) refl
        | inr old ↦ rw old refl
      ]

  -- Item j is reached, and is cached.
  pub record IsReached (j c : ℕ) (r : Result (Unit {0})) (s : State) : Type 0 where
    pub found : r ≡ ok tt
    pub place : IsAt items j s.tk
    pub count : ℕ
    pub least : c ≤ count
    pub known : j < count
    pub most : count ≤ n
    pub coherent : IsCoherent items count s.cache

  abbrev pub HasReached : ℕ → ℕ → Result (Unit {0}) × State → Type 0
  HasReached j c (r, s) = IsReached j c r s

  reached-earlier :
      (j c c' : ℕ) (r : Result (Unit {0}) × State) → c ≤ c' → HasReached j c' r → HasReached j c r
  reached-earlier j c c' (r, s) le reached = record {
    found = reached.found;
    place = reached.place;
    count = reached.count;
    least = omega (arith, reached.least);
    known = reached.known;
    most = reached.most;
    coherent = reached.coherent;
  }

  nth_step :
      (left j : ℕ) (s s' : State) (b : Bool)
      → cache_next a new s ≡ (ok tt, s')
      → eqb_ℤ (index_of s') (pos j) ≡ b
      → nth_loop a new (pos j) (suc left) s
        ≡ (if b then (ok tt, s') else andthen (go_next a s') (nth_loop a new (pos j) left))
  unfolding nth_loop
  nth_step left j s s' b e test =
      ap (λ (r : Result (Unit {0}) × State). andthen r (λ t. chosen t (eqb_ℤ (index_of t) (pos j))))
        e
      ∙ ap (chosen s') test
      ∙ if_elim b
    where
      chosen : State → Bool → Result (Unit {0}) × State
      chosen t b = elim b [
        | true ↦ (ok tt, t)
        | false ↦ andthen (go_next a t) (nth_loop a new (pos j) left)
      ]

      if_elim :
          (b : Bool)
          → chosen s' b
            ≡ (if b then (ok tt, s') else andthen (go_next a s') (nth_loop a new (pos j) left))
      if_elim true = refl
      if_elim false = refl

  pub nth_loop-reaches :
      (left i j c : ℕ) (s : State)
      → j < i + left
      → i ≤ j
      → j < n
      → i ≤ c
      → c ≤ n
      → IsCoherent items c s.cache
      → IsAt items i s.tk
      → HasReached j c (nth_loop a new (pos j) left s)
  nth_loop-reaches zero i j c s enough le inside known most w place =
      let absurdity : ⊥ = omega arith in elim absurdity [ ]
  nth_loop-reaches (suc left) i j c s enough le inside known most w place =
      let passed = cached (items.key i) s in
      let (c', grow, past, most', w') =
        cached-HasGrown n i c items s w place known most (omega arith) in
      let place' = subst (IsAt items i) (sym (cached-tk (items.key i) s)) place in
      let cached_now = cache_next-eq i c s w place (omega arith) in
      let test = ap (λ path. eqb_ℤ (path_index path) (pos j)) place'.cur ∙ eqb_pos i j in
      elim (Bool-cases (i == j)) [
        | inl here ↦
            let same : i ≡ j = ground arith in
            subst (HasReached j c) (sym (nth_step left j s passed true cached_now (test ∙ here)))
              (record {
                found = refl;
                place = subst (λ (k : ℕ). IsAt items k passed.tk) same place';
                count = c';
                least = grow;
                known = omega arith;
                most = most';
                coherent = w';
              })
        | inr other ↦
            let more : suc i ≤ j = ground arith in
            let (tk, next, here) =
              next-place a n items wanted v (suc i) passed.tk place' (omega arith) in
            subst (HasReached j c) (sym (nth_step left j s passed false cached_now (test ∙ other)))
              (subst (HasReached j c)
                (sym (ap (λ r. andthen (moved passed.cache r) (nth_loop a new (pos j) left)) next))
                (reached-earlier j c c'
                  (nth_loop a new (pos j) left (record { tk = tk; cache = passed.cache })) grow
                  (nth_loop-reaches left (suc i) j c' (record { tk = tk; cache = passed.cache })
                    (omega arith) more inside past most' w' here)))
      ]
