-- ===== src/Arrays/IndexCache/TwinSearch.antt =====
-- libbitpunch/src/filters/array_index_cache.c: the searches for a twin by its number, and for the number of a twin.
use bitpunch.Base.{ℕ, zero, suc, Bool, if◌then◌else◌, Option, none, some}
use bitpunch.Base.Int.{ℤ, pos, eqb_ℤ, ◌+ℤ◌}
use bitpunch.Status.{Result, ok, err, error, no_item}
use bitpunch.Expr.Values.{Value}
use bitpunch.Browse.Box.{unset}
use bitpunch.Arrays.Tracker.{Tracker, TrackPath, track_path_eq}
use bitpunch.Arrays.IndexCache.{Items, State}
use bitpunch.Arrays.IndexCache.Twins.{
  Twins, box_index_cache_lookup_key_twins, index_cache_iterator_next_twin,
}

-- A round of the loop below, behind the search of a twin.
abbrev pub count_on :
    (ℤ → Twins → Result (Unit {0}) × ℤ × Twins)
    → (ℤ → TrackPath → Bool)
    → ℤ
    → Result (Unit {0}) × Twins
    → Result (Unit {0}) × ℤ × Twins
count_on again is_wanted cur_twin (err e, t) = (err e, cur_twin, t)
count_on again is_wanted cur_twin (ok tt, t) =
    let twin = cur_twin +ℤ pos 1 in
    let rest = again twin t in if is_wanted twin t.at.tk.cur then (ok tt, twin, t) else rest

-- The loop of the two searches below: twins up to the one that is wanted, with the number of the
-- last one; -1 stands for none.
unfoldable pub count_twins :
    Items → (ℤ → TrackPath → Bool) → ℕ → ℤ → Twins → Result (Unit {0}) × ℤ × Twins
unfolding index_cache_iterator_next_twin
count_twins a is_wanted zero cur_twin t = (err error, cur_twin, t)
count_twins a is_wanted (suc left) cur_twin t =
    count_on (count_twins a is_wanted left) is_wanted cur_twin (index_cache_iterator_next_twin a t)

-- The result, the number of the last twin, and the state of the tracker: that of the iterator when
-- the twin is found.
abbrev pub goto_counted :
    State → Result (Unit {0}) × ℤ × Twins → Result (Unit {0}) × Option ℤ × State
goto_counted s (ok tt, cur_twin, t) = (ok tt, none, t.at)
goto_counted s (err no_item, cur_twin, t) =
    (err no_item, some cur_twin, record s { cache = t.at.cache })
goto_counted s (err e, cur_twin, t) = (err e, none, record s { cache = t.at.cache })

abbrev pub if_looked_up :
    (Twins → Result (Unit {0}) × Option ℤ × State)
    → State
    → Result (Unit {0}) × Twins
    → Result (Unit {0}) × Option ℤ × State
if_looked_up count s (ok tt, t) = count t
if_looked_up count s (err e, t) = (err e, none, record s { cache = t.at.cache })

-- A lookup that fails leaves no number. `new` is a new tracker in the box.
unfoldable pub tracker_index_cache_goto_twin :
    Items → Tracker → Value → ℤ → TrackPath → State → Result (Unit {0}) × Option ℤ × State
unfolding box_index_cache_lookup_key_twins count_twins
tracker_index_cache_goto_twin a new item_key nth_twin in_slice_path s =
    if_looked_up
      (λ t. goto_counted s (count_twins a (λ twin path. eqb_ℤ nth_twin twin) a.max_rounds unset t))
      s (box_index_cache_lookup_key_twins a item_key in_slice_path (record s { tk = new }))

abbrev pub lookup_counted :
    State → Result (Unit {0}) × ℤ × Twins → Result (Unit {0}) × Option ℤ × State
lookup_counted s (ok tt, cur_twin, t) = (ok tt, some cur_twin, record s { cache = t.at.cache })
lookup_counted s (err no_item, cur_twin, t) =
    (err no_item, some cur_twin, record s { cache = t.at.cache })
lookup_counted s (err e, cur_twin, t) = (err e, none, record s { cache = t.at.cache })

unfoldable pub tracker_index_cache_lookup_current_twin_index :
    Items → Tracker → Value → TrackPath → State → Result (Unit {0}) × Option ℤ × State
unfolding box_index_cache_lookup_key_twins count_twins track_path_eq
tracker_index_cache_lookup_current_twin_index a new item_key in_slice_path s =
    if_looked_up
      (λ t.
        lookup_counted s
          (count_twins a (λ twin path. track_path_eq path s.tk.cur) a.max_rounds unset t))
      s (box_index_cache_lookup_key_twins a item_key in_slice_path (record s { tk = new }))
