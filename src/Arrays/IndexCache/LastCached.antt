-- ===== src/Arrays/IndexCache/LastCached.antt =====
-- Where the move to the last cached item leads.
use bitpunch.Base.{ℕ, zero, suc, ◌≡◌, refl, arith, false}
use bitpunch.Base.Int.{ℤ}
use bitpunch.Arrays.Tracker.{path_array, tracker_set_dangling}
use bitpunch.Arrays.IndexCache.{Items, State}
use bitpunch.Arrays.IndexCache.Moves.{tracker_rewind, tracker_goto_last_cached_item_internal}
use bitpunch.Arrays.IndexCache.Placed.{Contents, IsBefore}
use bitpunch.Arrays.IndexCache.Coherent.{IsCoherent}

-- The tracker is put behind the cached items.
pub last_cached-place :
    (a : Items) (items : Contents) (c : ℕ) (s : State) (z : ℤ)
    → IsCoherent items c s.cache
    → s.tk.cur ≡ path_array z
    → s.tk.reversed ≡ false
    → IsBefore items c (tracker_goto_last_cached_item_internal a s).tk
      × ((tracker_goto_last_cached_item_internal a s).cache ≡ s.cache)
unfolding tracker_goto_last_cached_item_internal tracker_rewind tracker_set_dangling
last_cached-place a items zero s z w cur forward =
    let last = w.last in
    (
      record {
        cur = ground arith;
        filter = ground arith;
        not_end = ground arith;
        forward = ground arith;
        needed = ground arith;
      },
      refl,
    )
last_cached-place a items (suc c) s z w cur forward =
    let last = w.last in
    let offset = w.last_offset c refl in
    (
      record {
        cur = ground arith;
        filter = ground arith;
        not_end = ground arith;
        forward = ground arith;
        needed = ground arith;
        offset = ground arith;
      },
      refl,
    )
