-- ===== src/Arrays/IndexCache/TailCount.antt =====
-- The count of the twins among the items that are not cached.
use mathlib.Core.Path.{subst}
use bitpunch.Base.{
  ℕ, zero, suc, ◌+◌, ◌≤◌, ◌<◌, ◌≡◌, ◌∙◌, refl, sym, ap, ◌⊎◌, inl, inr, arith, Bool, true, false,
  ◌==◌, if◌then◌else◌, Bool-cases,
}
use bitpunch.Base.Int.{ℤ, pos, ◌+ℤ◌}
use bitpunch.Status.{Result, ok}
use bitpunch.Expr.Values.{Value}
use bitpunch.Arrays.Tracker.{TrackPath, path_array, path_index, path_notype}
use bitpunch.Arrays.IndexCache.{Items, State, andthen, go_next}
use bitpunch.Arrays.IndexCache.Match.{tracker_goto_next_key_match__array}
use bitpunch.Arrays.IndexCache.Keyed.{tail_on, count_tail}
use bitpunch.Arrays.IndexCache.Placed.{Contents, IsAt, IsBefore, before}
use bitpunch.Arrays.IndexCache.Coherent.{IsCoherent}
use bitpunch.Arrays.IndexCache.Searched.{IsIndexed, HasSearched, next-searches}
use bitpunch.Arrays.IndexCache.MatchFinds.{match_all-searches}
use bitpunch.Arrays.IndexCache.TwinsBefore.{
  twins_before, twins_before-same, twins_before-absent, before-next, Selects, IsNthTwin, HasTooFew,
}

module _ (a : Items) (n : ℕ) (items : Contents) (wanted : Value) (v : IsIndexed a n items wanted)
    (nth : ℕ) (is_counted : ℤ → Bool) (counts_all : (j : ℕ) → is_counted (pos j) ≡ true)
    (is_wanted : ℤ → TrackPath → Bool) (selects : Selects n items wanted nth is_wanted) where
  abbrev pub HasCounted : Result (Unit {0}) × ℤ × State → Type 0
  HasCounted (r, twin, s) =
      (IsNthTwin n items wanted nth r s × (twin ≡ pos nth)) ⊎ HasTooFew n items wanted nth r s

  abbrev pub tail_from : ℕ → ℤ → State → Result (Unit {0}) × ℤ × State
  tail_from left = count_tail a wanted is_counted is_wanted path_notype left

  abbrev tail_round : ℕ → ℤ → Result (Unit {0}) × State → Result (Unit {0}) × ℤ × State
  tail_round left twin r = tail_on (tail_from left) is_counted is_wanted twin r

  count_tail-eq :
      (left : ℕ) (twin : ℤ) (s : State)
      → tail_from (suc left) twin s
        ≡ tail_round left twin
            (andthen (go_next a s) (tracker_goto_next_key_match__array a wanted path_notype))
  unfolding count_tail
  count_tail-eq left twin s = refl

  -- Twin number k at item j is counted, and is the one that is asked for or not.
  tail_round-hit :
      (left j k : ℕ) (s : State) (b : Bool)
      → s.tk.cur ≡ path_array (pos j)
      → is_wanted (pos k) (path_array (pos j)) ≡ b
      → tail_round left (before k) (ok tt, s)
        ≡ (if b then (ok tt, pos k, s) else tail_from left (pos k) s)
  tail_round-hit left j k s b cur test =
      let chosen = λ (z : ℤ). if is_wanted z s.tk.cur then (ok tt, z, s) else tail_from left z s in
      ap (λ path. chosen (if is_counted (path_index path) then before k +ℤ pos 1 else before k)) cur
      ∙ ap (λ (b : Bool). chosen (if b then before k +ℤ pos 1 else before k)) (counts_all j)
      ∙ ap chosen (before-next k)
      ∙ ap (λ (b : Bool). if b then (ok tt, pos k, s) else tail_from left (pos k) s)
          (ap (is_wanted (pos k)) cur ∙ test)

  round-counts :
      (left i c : ℕ) (r : Result (Unit {0}) × State)
      → i ≤ n
      → twins_before n items wanted i ≤ nth
      → HasSearched n items wanted i n c r
      → ((j c' : ℕ) (s : State)
          → i ≤ j
          → j < n
          → j < c'
          → c' ≤ n
          → twins_before n items wanted (suc j) ≤ nth
          → IsCoherent items c' s.cache
          → IsAt items j s.tk
          → HasCounted (tail_from left (before (twins_before n items wanted (suc j))) s))
      → HasCounted (tail_round left (before (twins_before n items wanted i)) r)
  round-counts left i c (r, s) fits few (inl hit) again =
      let first = hit.first in
      let grown = hit.grown in
      let j = hit.j in
      let k = twins_before n items wanted j in
      let same : k ≡ twins_before n items wanted i =
        twins_before-absent n items wanted i j v.comparable first.from (omega (arith, first.inside))
          first.earlier in
      let after = twins_before-same n items wanted j v.comparable first.inside first.here in
      let test = selects j first.inside first.here in
      subst (λ (m : ℕ). HasCounted (tail_round left (before m) (r, s))) same
        (subst (λ (q : Result (Unit {0})). HasCounted (tail_round left (before k) (q, s)))
          (sym hit.found)
          (elim (Bool-cases (k == nth)) [
            | inl this_one ↦
                let number : k ≡ nth = ground arith in
                subst HasCounted
                  (sym (tail_round-hit left j k s true hit.place.cur (test ∙ this_one)))
                  (inl (
                    record {
                      j = j;
                      inside = first.inside;
                      here = first.here;
                      number = number;
                      found = refl;
                      place = hit.place;
                      count = grown.count;
                      most = grown.most;
                      coherent = grown.coherent;
                    },
                    ap pos number,
                  ))
            | inr other ↦
                let more : suc k ≤ nth = ground (arith, same) in
                subst HasCounted
                  (sym (tail_round-hit left j k s false hit.place.cur (test ∙ other)))
                  (subst (λ (m : ℕ). HasCounted (tail_from left (before m) s)) after
                    (again j grown.count s first.from first.inside hit.known grown.most
                      (omega (arith, after)) grown.coherent hit.place))
          ]))
  round-counts left i c (r, s) fits few (inr miss) again =
      let grown = miss.grown in
      let same =
        twins_before-absent n items wanted i n v.comparable fits (omega arith) miss.absent in
      subst
        (λ (q : Result (Unit {0})).
          HasCounted (tail_round left (before (twins_before n items wanted i)) (q, s)))
        (sym miss.none_found)
        (inr (record {
          none_found = refl;
          fewer = omega (arith, same);
          count = grown.count;
          most = grown.most;
          coherent = grown.coherent;
        }))

  pub tail-counts :
      (left i c : ℕ) (s : State)
      → n < i + left
      → i ≤ c
      → c ≤ n
      → twins_before n items wanted i ≤ nth
      → IsCoherent items c s.cache
      → IsBefore items i s.tk
      → HasCounted (tail_from left (before (twins_before n items wanted i)) s)
  tail-counts zero i c s enough le most few w cur =
      let absurdity : ⊥ = omega arith in elim absurdity [ ]
  tail-counts (suc left) i c s enough le most few w cur =
      subst HasCounted (sym (count_tail-eq left (before (twins_before n items wanted i)) s)) (
        round-counts left i c
          (andthen (go_next a s) (tracker_goto_next_key_match__array a wanted path_notype))
          (omega arith) few
          (next-searches n items wanted a (tracker_goto_next_key_match__array a wanted path_notype)
            i n c s v w most (omega arith) cur
            (λ tk at_i inside.
              match_all-searches a n items wanted v i c (record { tk = tk; cache = s.cache }) le
                most inside w at_i))
          (λ j c' s' from inside known most' few' w' cur'.
            tail-counts left (suc j) c' s' (omega arith) known most' few' w' cur'))
