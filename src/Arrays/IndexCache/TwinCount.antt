-- ===== src/Arrays/IndexCache/TwinCount.antt =====
-- The twins that the iterator goes through are all the cached items with the key, in order.
use mathlib.Core.Path.{subst}
use bitpunch.Base.{
  ℕ, zero, suc, ◌+◌, ◌≤◌, ◌<◌, ◌≡◌, ◌∙◌, refl, sym, ap, ◌⊎◌, inl, inr, arith, Bool, true, false,
  ◌==◌, if◌then◌else◌, Bool-cases,
}
use bitpunch.Base.Int.{ℤ, pos, ◌+ℤ◌}
use bitpunch.Status.{Result, ok, err, no_item}
use bitpunch.Expr.Values.{Value}
use bitpunch.Arrays.Tracker.{TrackPath}
use bitpunch.Arrays.IndexCache.{Items}
use bitpunch.Arrays.IndexCache.Twins.{Twins, index_cache_iterator_next_twin}
use bitpunch.Arrays.IndexCache.TwinSearch.{count_on, count_twins}
use bitpunch.Arrays.IndexCache.Placed.{Contents, before}
use bitpunch.Arrays.IndexCache.Searched.{IsIndexed}
use bitpunch.Arrays.IndexCache.TwinLookup.{HasLookedUp}
use bitpunch.Arrays.IndexCache.TwinNext.{next_twin-searches}
use bitpunch.Arrays.IndexCache.TwinsBefore.{
  twins_before, twins_before-same, twins_before-absent, before-next, Selects, IsNthTwin, IsTooFew,
}

module _ (a : Items) (n : ℕ) (items : Contents) (wanted : Value) (v : IsIndexed a n items wanted)
    (start : ℕ) (nth : ℕ) (is_wanted : ℤ → TrackPath → Bool)
    (selects : Selects n items wanted nth is_wanted) where
  count_found :
      (left : ℕ) (twin : ℤ) (t t' : Twins) (b : Bool)
      → index_cache_iterator_next_twin a t ≡ (ok tt, t')
      → is_wanted (twin +ℤ pos 1) t'.at.tk.cur ≡ b
      → count_twins a is_wanted (suc left) twin t ≡ (
          if b then (ok tt, twin +ℤ pos 1, t') else count_twins a is_wanted left (twin +ℤ pos 1) t')
  unfolding count_twins
  count_found left twin t t' b e test =
      let again = count_twins a is_wanted left in
      ap (count_on again is_wanted twin) e
      ∙ ap (λ (b : Bool). if b then (ok tt, twin +ℤ pos 1, t') else again (twin +ℤ pos 1) t') test

  count_missed :
      (left : ℕ) (twin : ℤ) (t t' : Twins)
      → index_cache_iterator_next_twin a t ≡ (err no_item, t')
      → count_twins a is_wanted (suc left) twin t ≡ (err no_item, twin, t')
  unfolding count_twins
  count_missed left twin t t' e = ap (count_on (count_twins a is_wanted left) is_wanted twin) e

  abbrev pub Counts : Result (Unit {0}) × ℤ × Twins → Type 0
  Counts (r, twin, t) =
      (IsNthTwin n items wanted nth r t.at × (twin ≡ pos nth))
      ⊎ IsTooFew n items wanted nth twin r t.at

  pub count_twins-Counts :
      (left lo c : ℕ) (t : Twins)
      → n < lo + left
      → lo ≤ c
      → lo ≤ n
      → twins_before n items wanted lo ≤ nth
      → HasLookedUp a n items wanted v start lo c (index_cache_iterator_next_twin a t)
      → Counts (count_twins a is_wanted left (before (twins_before n items wanted lo)) t)
  count_twins-Counts zero lo c t enough le most few looked =
      let absurdity : ⊥ = omega arith in elim absurdity [ ]
  count_twins-Counts (suc left) lo c t enough le most few (inl twin) =
      let t' = (index_cache_iterator_next_twin a t).1 in
      let found : index_cache_iterator_next_twin a t ≡ (ok tt, t') =
        ap (λ (r : Result (Unit {0})). (r, t')) twin.found in
      let first = twin.first in
      let grown = twin.grown in
      let same : twins_before n items wanted twin.j ≡ twins_before n items wanted lo =
        twins_before-absent n items wanted lo twin.j v.comparable first.from
          (omega (arith, first.inside)) first.earlier in
      let next = twins_before-same n items wanted twin.j v.comparable first.inside first.here in
      let counted : last +ℤ pos 1 ≡ pos (twins_before n items wanted twin.j) =
        before-next (twins_before n items wanted lo) ∙ ap pos (sym same) in
      let test : is_wanted (last +ℤ pos 1) t'.at.tk.cur
          ≡ (twins_before n items wanted twin.j == nth) =
        ap (λ (z : ℤ). is_wanted z t'.at.tk.cur) counted
        ∙ ap (is_wanted (pos (twins_before n items wanted twin.j))) twin.place.cur
        ∙ selects twin.j first.inside first.here in
      elim (Bool-cases (twins_before n items wanted twin.j == nth)) [
        | inl wanted_one ↦
            let number : twins_before n items wanted twin.j ≡ nth = ground arith in
            subst Counts (sym (count_found left last t t' true found (test ∙ wanted_one))) (
              inl (
                record {
                  j = twin.j;
                  inside = first.inside;
                  here = first.here;
                  number = number;
                  found = refl;
                  place = twin.place;
                  count = grown.count;
                  most = grown.most;
                  coherent = grown.coherent;
                },
                counted ∙ ap pos number,
              ))
        | inr other ↦
            let more : suc (twins_before n items wanted twin.j) ≤ nth = ground (arith, same) in
            subst Counts (sym (count_found left last t t' false found (test ∙ other))) (
              subst (λ (z : ℤ). Counts (count_twins a is_wanted left z t'))
                (ap before next ∙ sym counted)
                (count_twins-Counts left (suc twin.j) grown.count t'
                  (omega (arith, first.from, first.inside)) twin.known first.inside
                  (omega (arith, next))
                  (next_twin-searches a n items wanted v start lo c
                    (index_cache_iterator_next_twin a t).0 t' twin)))
      ]
    where
      last : ℤ
      last = before (twins_before n items wanted lo)
  count_twins-Counts (suc left) lo c t enough le most few (inr no_twin) =
      let t' = (index_cache_iterator_next_twin a t).1 in
      let missed : index_cache_iterator_next_twin a t ≡ (err no_item, t') =
        ap (λ (r : Result (Unit {0})). (r, t')) no_twin.none_found in
      let grown = no_twin.grown in
      let same =
        twins_before-absent n items wanted lo grown.count v.comparable (omega (arith, grown.least))
          grown.most no_twin.absent in
      subst Counts (sym (count_missed left (before (twins_before n items wanted lo)) t t' missed)) (
        inr (record {
          none_found = refl;
          count = grown.count;
          most = grown.most;
          coherent = grown.coherent;
          fewer = omega (arith, same);
          last_twin = ap before (sym same);
        }))
