-- ===== src/Arrays/IndexCache/TwinLookup.antt =====
-- What it is to find a twin, and the step from a mark to the next one.
use mathlib.Core.Path.{subst}
use bitpunch.Base.{
  ℕ, ◌+◌, ◌*◌, ◌/◌, ◌%◌, ◌≤◌, ◌<◌, ◌≡◌, ◌∙◌, refl, sym, ap, ◌⊎◌, inl, inr, arith, Bool, false,
  Option, none, some,
}
use bitpunch.Status.{Result, ok, err, no_item}
use bitpunch.Expr.Values.{Value}
use bitpunch.Arrays.Tracker.{Tracker}
use bitpunch.Utils.Bloom.{Book, Cookie, at_mark, bloom_book_create}
use bitpunch.Utils.Bloom.Query.{bloom_book_lookup_word_get_next_candidate}
use bitpunch.Arrays.IndexCache.{Items, State, book_of}
use bitpunch.Arrays.IndexCache.Moves.{tracker_goto_mark_internal}
use bitpunch.Arrays.IndexCache.Twins.{Twins, next_candidate, twin_loop, after_mark, resume}
use bitpunch.Arrays.IndexCache.Placed.{Contents, IsAt}
use bitpunch.Arrays.IndexCache.Coherent.{IsCoherent}
use bitpunch.Arrays.IndexCache.GotoMark.{goto_mark-place}
use bitpunch.Arrays.IndexCache.Searched.{
  IsIndexed, IsAbsent, IsFirst, HasGrown, join_ranges, grown-earlier,
}
use bitpunch.Arrays.IndexCache.MarkFinds.{iter_at}
use bitpunch.Arrays.IndexCache.Candidate.{cookie_at, lookup_cases, mark-IsPlaceIn}

module _ (a : Items) (n : ℕ) (items : Contents) (wanted : Value) (v : IsIndexed a n items wanted)
    (start : ℕ) where
  -- The iterator, at a mark, with a tracker.
  abbrev pub twins_at : ℕ → Option ℕ → Bool → State → Twins
  twins_at m from first s = record { iter = iter_at a n items wanted v start m from first; at = s }

  -- The tracker of the iterator is at the first item with the key, and the iterator at its mark.
  pub record IsTwin (lo c : ℕ) (r : Result (Unit {0})) (t : Twins) : Type 0 where
    pub j : ℕ
    pub mark : ℕ
    pub first : IsFirst n items wanted lo n j
    pub found : r ≡ ok tt
    pub iter : t.iter ≡ iter_at a n items wanted v start mark none false
    pub place : IsAt items j t.at.tk
    pub before_next : j < (mark + 1) * 32
    pub grown : HasGrown n items wanted c t.at.cache
    pub known : j < grown.count
    pub held : mark * 32 < grown.count

  -- No cached item has the key.
  pub record IsNoTwin (lo c : ℕ) (r : Result (Unit {0})) (t : Twins) : Type 0 where
    pub none_found : r ≡ err no_item
    pub grown : HasGrown n items wanted c t.at.cache
    pub absent : IsAbsent n items wanted lo grown.count

  abbrev pub HasLookedUp : ℕ → ℕ → Result (Unit {0}) × Twins → Type 0
  HasLookedUp lo c (r, t) = IsTwin lo c r t ⊎ IsNoTwin lo c r t

  next_candidate-eq :
      (m c : ℕ) (from : Option ℕ) (first : Bool) (s : State) (w : IsCoherent items c s.cache)
      (mark : Option ℕ) (cookie : Cookie)
      → bloom_book_lookup_word_get_next_candidate w.book
          (cookie_at wanted (at_mark (m / 64) (m % 64)))
        ≡ (mark, cookie)
      → next_candidate (twins_at m from first s) ≡ record {
        iter = record (iter_at a n items wanted v start m from first) {
          mark = mark;
          bloom_cookie = cookie;
        };
        at = s;
      }
  unfolding next_candidate
  next_candidate-eq m c from first s w mark cookie e =
      let here = cookie_at wanted (at_mark (m / 64) (m % 64)) in
      let book_eq : book_of s.cache ≡ w.book =
        ap (λ (o : Option Book). elim o [ some book ↦ book | none ↦ bloom_book_create ])
          w.indexed in
      ap
        (λ (p : Option ℕ × Cookie). record {
          iter = record (iter_at a n items wanted v start m from first) {
            mark = p.0;
            bloom_cookie = p.1;
          };
          at = s;
        })
        (ap (λ (book : Book). bloom_book_lookup_word_get_next_candidate book here) book_eq ∙ e)

  pub lookup-earlier :
      (lo c c' : ℕ) (r : Result (Unit {0}) × Twins)
      → c ≤ c'
      → HasLookedUp lo c' r
      → HasLookedUp lo c r
  lookup-earlier lo c c' (r, t) le (inl twin) = inl (record {
    j = twin.j;
    mark = twin.mark;
    first = twin.first;
    found = twin.found;
    iter = twin.iter;
    place = twin.place;
    before_next = twin.before_next;
    grown = grown-earlier n items wanted c c' t.at.cache le twin.grown;
    known = twin.known;
    held = twin.held;
  })
  lookup-earlier lo c c' (r, t) le (inr no_twin) = inr (record {
    none_found = no_twin.none_found;
    grown = grown-earlier n items wanted c c' t.at.cache le no_twin.grown;
    absent = no_twin.absent;
  })

  -- The loop goes on behind the next mark, or ends.
  resume-none :
      (again : Twins → Result (Unit {0}) × Twins) (t : Twins)
      → t.iter.mark ≡ none
      → resume again a t ≡ (err no_item, t)
  resume-none again t e = cc

  after_mark-some :
      (again : Twins → Result (Unit {0}) × Twins) (t t' : Twins) (m' : ℕ) (tk : Tracker)
      → next_candidate t ≡ t'
      → t'.iter.mark ≡ some m'
      → tracker_goto_mark_internal a m' t'.at ≡ (ok tt, record { tk = tk; cache = t'.at.cache })
      → after_mark again a (err no_item) t
        ≡ again (record t' { at = record { tk = tk; cache = t'.at.cache } })
  after_mark-some again t t' m' tk e e' gone = ap (resume again a) e ∙ cc (e', gone)

  after_mark-none :
      (again : Twins → Result (Unit {0}) × Twins) (t : Twins)
      → (next_candidate t).iter.mark ≡ none
      → after_mark again a (err no_item) t ≡ (err no_item, next_candidate t)
  after_mark-none again t e = resume-none again (next_candidate t) e

  -- The state behind a mark without the key.
  pub go_on :
      (left m lo c : ℕ) (from : Option ℕ) (first : Bool) (s : State)
      → ((m' : ℕ) (tk : Tracker)
          → m < m'
          → m' * 32 < c
          → IsAt items (m' * 32) tk
          → IsAbsent n items wanted lo (m' * 32)
          → HasLookedUp lo c
              (twin_loop a left (twins_at m' from first (record { tk = tk; cache = s.cache }))))
      → m * 32 < c
      → c ≤ n
      → IsCoherent items c s.cache
      → s.tk.reversed ≡ false
      → IsAbsent n items wanted lo ((m + 1) * 32)
      → HasLookedUp lo c (after_mark (twin_loop a left) a (err no_item) (twins_at m from first s))
  unfolding next_candidate
  go_on left m lo c from first s search held most w forward passed =
      let here = at_mark (m / 64) (m % 64) in
      elim (lookup_cases items.key wanted c w.book w.book_ok here
        (mark-IsPlaceIn items.key c w.book m w.book_ok held)) [
          | inl (m', next) ↦
              let (tk, gone, place) =
                goto_mark-place a n items wanted v m' c s w next.held forward in
              let behind = next.behind in
              subst (HasLookedUp lo c)
                (sym (
                  after_mark-some (twin_loop a left) (twins_at m from first s)
                    (twins_at m' from first s) m' tk
                    (next_candidate-eq m c from first s w (some m')
                      (cookie_at wanted (at_mark (m' / 64) (m' % 64))) next.candidate)
                    refl gone))
                (search m' tk (omega arith) next.held place (
                  join_ranges n items wanted lo ((m + 1) * 32) (m' * 32) passed
                    (λ i from_m to_m inside.
                      next.passed i (omega arith) to_m (omega (arith, next.held)))))
          | inr end ↦
              subst (HasLookedUp lo c)
                (sym (
                  after_mark-none (twin_loop a left) (twins_at m from first s) (
                    ap (λ (t : Twins). t.iter.mark)
                      (next_candidate-eq m c from first s w
                        (bloom_book_lookup_word_get_next_candidate w.book (cookie_at wanted here)).0
                        (bloom_book_lookup_word_get_next_candidate w.book (cookie_at wanted here)).1
                        refl)
                    ∙ end.end)))
                (inr (record {
                  none_found = refl;
                  grown = record { count = c; least = omega arith; most = most; coherent = w };
                  absent =
                      join_ranges n items wanted lo ((m + 1) * 32) c passed
                        (λ i from_m to_c inside. end.absent i (omega arith) to_c);
                }))
        ]
