-- ===== src/Arrays/IndexCache/MatchFinds.antt =====
-- The search for a key from item to item finds the first one, and caches the items that it passes.
use mathlib.Core.Path.{subst}
use bitpunch.Base.{
  ℕ, zero, suc, ◌+◌, ◌≤◌, ◌<◌, ◌≡◌, ◌∙◌, refl, sym, ap, inl, inr, arith, false, ◌==◌, Bool-cases,
}
use bitpunch.Base.Int.{pos}
use bitpunch.Expr.Values.{Value}
use bitpunch.Arrays.Tracker.{TrackPath, path_array, path_notype, track_path_eq}
use bitpunch.Arrays.IndexCache.{tracker_goto_next_item_internal, go_next, andthen, Items, State}
use bitpunch.Arrays.IndexCache.Match.{
  cached, at_boundary, match_loop, tracker_goto_next_key_match__array,
}
use bitpunch.Arrays.IndexCache.Placed.{Contents, IsAt}
use bitpunch.Arrays.IndexCache.Coherent.{IsCoherent}
use bitpunch.Arrays.IndexCache.Searched.{
  IsIndexed, HasSearched, search-earlier, one_item_range, next-searches,
}
use bitpunch.Arrays.IndexCache.Passing.{
  match_done, match_next, match_at_boundary, key_is-cases, cached-tk, cached-HasGrown,
}

module _ (a : Items) (n : ℕ) (items : Contents) (wanted : Value) (v : IsIndexed a n items wanted)
    (b : TrackPath) (e : ℕ)
    (bounded : (i : ℕ) (s : State) → IsAt items i s.tk → i < n → at_boundary b s ≡ (i == e)) where
  -- From item i on, up to the boundary, with rounds enough for the items that are left.
  match_loop-searches :
      (left i c : ℕ) (s : State)
      → n < i + left
      → i ≤ c
      → c ≤ n
      → i < n
      → i ≤ e
      → IsCoherent items c s.cache
      → IsAt items i s.tk
      → HasSearched n items wanted i e c (match_loop a wanted b left s)
  match_loop-searches zero i c s enough le most inside before_e w place =
      let absurdity : ⊥ = omega arith in elim absurdity [ ]
  match_loop-searches (suc left) i c s enough le most inside before_e w place =
      elim (Bool-cases (i == e)) [
        | inl stop ↦
            let at_end : i ≡ e = ground arith in
            subst (HasSearched n items wanted i e c)
              (sym (match_at_boundary a wanted b left s (bounded i s place inside ∙ stop)))
              (inr (record {
                absent = λ k from to fits. let absurdity : ⊥ = omega arith in elim absurdity [ ];
                none_found = refl;
                forward = place.forward;
                grown = record { count = c; least = omega arith; most = most; coherent = w };
              }))
        | inr go ↦
            let within : at_boundary b s ≡ false = bounded i s place inside ∙ go in
            let has_key = v.keys i s.tk place inside in
            let (d, compared) = v.comparable i inside in
            let (c', grow, past, most', w') =
              cached-HasGrown n i c items s w place le most inside in
            let tk_kept = cached-tk (items.key i) s in
            let next_e : suc i ≤ e = ground arith in
            elim (key_is-cases (items.key i) wanted d compared) [
              | inl (same, test) ↦
                  subst (HasSearched n items wanted i e c)
                    (sym (match_done a wanted (items.key i) b left s within has_key test))
                    (inl (record {
                      j = i;
                      first = record {
                        from = omega arith;
                        to = next_e;
                        inside = inside;
                        here = same;
                        earlier =
                            λ k from to fits. let absurdity : ⊥ = omega arith in elim absurdity [ ];
                      };
                      found = refl;
                      place = subst (IsAt items i) (sym tk_kept) place;
                      grown = record { count = c'; least = grow; most = most'; coherent = w' };
                      known = past;
                    }))
              | inr (other, test) ↦
                  let passed = cached (items.key i) s in
                  let (r, tk) = tracker_goto_next_item_internal a passed.tk in
                  subst (HasSearched n items wanted i e c)
                    (sym (match_next a wanted (items.key i) b left s r tk within has_key test refl))
                    (search-earlier n items wanted i (suc i) e c c'
                      (andthen (go_next a passed) (match_loop a wanted b left))
                      (one_item_range n items wanted i other) (omega arith) grow
                      (next-searches n items wanted a (match_loop a wanted b left) (suc i) e c'
                        passed v w' most' inside (subst (IsAt items i) (sym tk_kept) place)
                        (λ tk' place' inside'.
                          match_loop-searches left (suc i) c'
                            (record { tk = tk'; cache = passed.cache }) (omega arith) past most'
                            inside' next_e w' place')))
            ]
      ]

path_eq : (k e : ℕ) → track_path_eq (path_array (pos k)) (path_array (pos e)) ≡ (k == e)
unfolding track_path_eq
path_eq k e = ground arith

-- A search that stops at an item, or at the end of the array.
pub match-searches :
    (a : Items) (n : ℕ) (items : Contents) (wanted : Value)
    → IsIndexed a n items wanted
    → (e i c : ℕ) (s : State) → i ≤ c
    → c ≤ n
    → i < n
    → i ≤ e
    → IsCoherent items c s.cache
    → IsAt items i s.tk
    → HasSearched n items wanted i e c
        (tracker_goto_next_key_match__array a wanted (path_array (pos e)) s)
unfolding tracker_goto_next_key_match__array track_path_eq
match-searches a n items wanted v e i c s le most inside before_e w place =
    let rounds = v.rounds in
    rw (v.filter, v.keyed)
      (match_loop-searches a n items wanted v (path_array (pos e)) e
        (λ k s' at inside'.
          ap (λ path. track_path_eq path (path_array (pos e))) at.cur ∙ path_eq k e)
        a.max_rounds i c s (omega arith) le most inside before_e w place)

pub match_all-searches :
    (a : Items) (n : ℕ) (items : Contents) (wanted : Value)
    → IsIndexed a n items wanted
    → (i c : ℕ) (s : State) → i ≤ c
    → c ≤ n
    → i < n
    → IsCoherent items c s.cache
    → IsAt items i s.tk
    → HasSearched n items wanted i n c (tracker_goto_next_key_match__array a wanted path_notype s)
unfolding tracker_goto_next_key_match__array
match_all-searches a n items wanted v i c s le most inside w place =
    let rounds = v.rounds in
    rw (v.filter, v.keyed)
      (match_loop-searches a n items wanted v path_notype n (λ k s' at inside'. ground arith)
        a.max_rounds i c s (omega arith) le most inside (omega arith) w place)
