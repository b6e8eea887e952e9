-- ===== src/Arrays/IndexCache/Match.antt =====
-- libbitpunch/src/filters/array.c: the search for the next item with a key.
use bitpunch.Base.{ℕ, zero, suc, Bool, true, false, not, ◌||◌, if◌then◌else◌, none, some}
use bitpunch.Base.Int.{pos, eqb_ℤ, ◌+ℤ◌}
use bitpunch.Status.{Result, ok, err, error, invalid_param, no_item}
use bitpunch.Expr.Values.{Value, expr_value_cmp}
use bitpunch.Arrays.Tracker.{TrackPath, path_notype, track_path_eq}
use bitpunch.Arrays.IndexCache.{
  Items, State, Op, andthen, go_next, index_of, tracker_index_cache_add_item,
}

-- The test of a key, and `error` where an assertion of expr_value_cmp fails.
abbrev pub key_is : Value → Value → Result Bool
key_is item_key key = elim (expr_value_cmp item_key key) [
  | some c ↦ ok (eqb_ℤ c (pos 0))
  | none ↦ err error
]

abbrev pub cached : Value → State → State
cached item_key s =
    if eqb_ℤ (index_of s) (s.cache.last_cached_index +ℤ pos 1)
    then tracker_index_cache_add_item item_key s
    else s

abbrev pub at_boundary : TrackPath → State → Bool
at_boundary path_notype s = false
at_boundary search_boundary s = track_path_eq s.tk.cur search_boundary

-- The loop, which ends in `error` if it goes round more than max_rounds times.
unfoldable pub match_loop : Items → Value → TrackPath → ℕ → Op
unfolding tracker_index_cache_add_item track_path_eq expr_value_cmp
match_loop a key search_boundary zero s = (err error, s)
match_loop a key search_boundary (suc left) s =
    if at_boundary search_boundary s then (err no_item, s) else elim (a.item_key s.tk) [
      | err e ↦ (err e, s)
      | ok item_key ↦
          let s' = cached item_key s in
          elim (key_is item_key key) [
            | err e ↦ (err e, s')
            | ok true ↦ (ok tt, s')
            | ok false ↦ andthen (go_next a s') (match_loop a key search_boundary left)
          ]
    ]

unfoldable pub tracker_goto_next_key_match__array : Items → Value → TrackPath → Op
unfolding match_loop
tracker_goto_next_key_match__array a key search_boundary s =
    if not a.is_filter || not a.has_key_expr
    then (err invalid_param, s)
    else match_loop a key search_boundary a.max_rounds s
