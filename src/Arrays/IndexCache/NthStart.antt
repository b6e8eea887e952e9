-- ===== src/Arrays/IndexCache/NthStart.antt =====
-- Where the move to an item by its index starts: a mark, the last cached item or the first item.
use mathlib.Core.Path.{subst}
use bitpunch.Base.{
  ℕ, zero, suc, ◌*◌, ◌/◌, ◌^◌, ◌≤◌, ◌<◌, ◌≡◌, ◌∙◌, refl, sym, ap, inl, inr, arith, Bool, true,
  false, if◌then◌else◌, Bool-cases,
}
use bitpunch.Base.Int.{ℤ, pos, ltb_ℤ}
use bitpunch.Status.{Result, ok}
use bitpunch.Expr.Values.{Value}
use bitpunch.Arrays.Tracker.{Tracker, path_array, tracker_is_dangling, tracker_set_dangling}
use bitpunch.Arrays.IndexCache.{Items, State, moved, go_next, array_get_index_mark}
use bitpunch.Arrays.IndexCache.Moves.{
  tracker_goto_mark_internal, tracker_goto_last_cached_item_internal, tracker_rewind,
}
use bitpunch.Arrays.IndexCache.Nth.{start_nth}
use bitpunch.Arrays.IndexCache.Placed.{Contents, IsAt, before}
use bitpunch.Arrays.IndexCache.Coherent.{IsCoherent}
use bitpunch.Arrays.IndexCache.GotoMark.{goto_mark-place}
use bitpunch.Arrays.IndexCache.Searched.{IsIndexed, next-place}
use bitpunch.Arrays.IndexCache.LastCached.{last_cached-place}

last_cached-standing :
    (a : Items) (items : Contents) (c : ℕ) (s : State)
    → IsCoherent items (suc c) s.cache
    → tracker_is_dangling (tracker_goto_last_cached_item_internal a s).tk ≡ false
unfolding tracker_goto_last_cached_item_internal
last_cached-standing a items c s w = let last = w.last in ground arith

last_cached-dangling :
    (a : Items) (items : Contents) (s : State)
    → IsCoherent items 0 s.cache
    → tracker_is_dangling (tracker_goto_last_cached_item_internal a s).tk ≡ true
unfolding tracker_goto_last_cached_item_internal tracker_rewind tracker_set_dangling
last_cached-dangling a items s w = let last = w.last in ground arith

start-mark :
    (a : Items) (items : Contents) (j c : ℕ) (s : State)
    → IsCoherent items c s.cache
    → ltb_ℤ (pos j) (before c) ≡ true
    → start_nth a (pos j) s ≡ tracker_goto_mark_internal a (j / 32) s
unfolding start_nth array_get_index_mark
start-mark a items j c s w test =
    let test' : ltb_ℤ (pos j) s.cache.last_cached_index ≡ true = ap (ltb_ℤ (pos j)) w.last ∙ test in
    rw test' (ap (λ (k : ℕ). tracker_goto_mark_internal a (j / 2 ^ k) s) w.log2)

abbrev next_if : Items → State → Bool → Result (Unit {0}) × State
next_if a xs dangling = if dangling then go_next a xs else (ok tt, xs)

start-last :
    (a : Items) (items : Contents) (j c : ℕ) (s : State) (dangling : Bool)
    → IsCoherent items c s.cache
    → ltb_ℤ (pos j) (before c) ≡ false
    → tracker_is_dangling (tracker_goto_last_cached_item_internal a s).tk ≡ dangling
    → start_nth a (pos j) s ≡ next_if a (tracker_goto_last_cached_item_internal a s) dangling
unfolding start_nth
start-last a items j c s dangling w test e =
    let test' : ltb_ℤ (pos j) s.cache.last_cached_index ≡ false =
      ap (ltb_ℤ (pos j)) w.last ∙ test in
    rw test' (ap (next_if a (tracker_goto_last_cached_item_internal a s)) e)

module _ (a : Items) (n : ℕ) (items : Contents) (wanted : Value) (v : IsIndexed a n items wanted)
    (new : Tracker) where
  -- An item to start from, at or before item j, with the items before it cached.
  pub record IsStarted (j c : ℕ) (r : Result (Unit {0})) (s : State) : Type 0 where
    pub i : ℕ
    pub found : r ≡ ok tt
    pub place : IsAt items i s.tk
    pub before_j : i ≤ j
    pub known : i ≤ c
    pub coherent : IsCoherent items c s.cache

  abbrev pub HasStarted : ℕ → ℕ → Result (Unit {0}) × State → Type 0
  HasStarted j c (r, s) = IsStarted j c r s

  pub start-HasStarted :
      (j c : ℕ) (s : State) (z : ℤ)
      → IsCoherent items c s.cache
      → j < n
      → s.tk.cur ≡ path_array z
      → s.tk.reversed ≡ false
      → HasStarted j c (start_nth a (pos j) s)
  start-HasStarted j zero s z w inside at forward =
      let xs = tracker_goto_last_cached_item_internal a s in
      let (at_first, kept) = last_cached-place a items 0 s z w at forward in
      let (tk, next, place) = next-place a n items wanted v 0 xs.tk at_first (omega arith) in
      subst (HasStarted j 0)
        (sym (start-last a items j 0 s true w (ground arith) (last_cached-dangling a items s w)))
        (subst (HasStarted j 0) (sym (ap (moved xs.cache) next)) (record {
          i = 0;
          found = refl;
          place = place;
          before_j = omega arith;
          known = omega arith;
          coherent = subst (λ cache. IsCoherent items 0 cache) (sym kept) w;
        }))
  start-HasStarted j (suc c) s z w inside at forward = elim (Bool-cases (ltb_ℤ (pos j) (pos c))) [
    | inl early ↦
        let (tk, gone, place) =
          goto_mark-place a n items wanted v (j / 32) (suc c) s w (ground arith) forward in
        subst (HasStarted j (suc c)) (sym (start-mark a items j (suc c) s w early ∙ gone)) (record {
          i = j / 32 * 32;
          found = refl;
          place = place;
          before_j = omega arith;
          known = ground arith;
          coherent = w;
        })
    | inr late ↦
        let (place, kept) = last_cached-place a items (suc c) s z w at forward in
        let standing = last_cached-standing a items c s w in
        subst (HasStarted j (suc c)) (sym (start-last a items j (suc c) s false w late standing))
          (record {
            i = c;
            found = refl;
            place = place;
            before_j = ground arith;
            known = omega arith;
            coherent = subst (λ cache. IsCoherent items (suc c) cache) (sym kept) w;
          })
  ]
