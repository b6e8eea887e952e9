-- ===== src/Arrays/IndexCache/Twins.antt =====
-- libbitpunch/src/filters/array_index_cache.c: the iterator over the cached items with a key, which
-- the book of keys leads from mark to mark.
use bitpunch.Base.{
  ℕ, zero, suc, ◌+◌, Bool, true, false, not, ◌&&◌, ◌==◌, if◌then◌else◌, Option, none, some,
}
use bitpunch.Base.Int.{ℤ, pos, eqb_ℤ, ltb_ℤ, leb_ℤ}
use bitpunch.Status.{Result, ok, err, error, no_item}
use bitpunch.Expr.Values.{Value}
use bitpunch.Browse.Box.{unset}
use bitpunch.Arrays.Tracker.{
  TrackPath, path_array, path_array_slice, path_notype, path_index, track_path_eq,
}
use bitpunch.Utils.Bloom.{Cookie}
use bitpunch.Utils.Bloom.Query.{
  bloom_book_lookup_word_from_mark, bloom_book_lookup_word_get_next_candidate,
}
use bitpunch.Arrays.IndexCache.{
  Items, State, Op, andthen, go_next, index_of, book_of, expr_value_to_hashable,
  array_get_index_mark, array_get_mark_start_index,
}
use bitpunch.Arrays.IndexCache.Moves.{tracker_goto_mark_internal}
use bitpunch.Arrays.IndexCache.Match.{tracker_goto_next_key_match__array}

-- `struct index_cache_iterator`, without its tracker.
pub record TwinIterator : Type 0 where
  pub bloom_cookie : Cookie
  pub key : Value
  pub mark : Option ℕ
  pub in_slice_path : TrackPath
  pub from_mark : Option ℕ
  pub first : Bool

-- An iterator with the tracker `xtk` and the cache of its box.
pub record Twins : Type 0 where
  pub iter : TwinIterator
  pub at : State

-- `u.array_slice.index_end`, which lies in the zeros of TRACK_PATH_NONE.
abbrev pub path_index_end : TrackPath → ℤ
path_index_end (path_array_slice i i') = i'
path_index_end _ = pos 0

-- The next mark to look behind.
unfoldable pub next_candidate : Twins → Twins
unfolding bloom_book_lookup_word_get_next_candidate
next_candidate t =
    let (mark, cookie) =
      bloom_book_lookup_word_get_next_candidate (book_of t.at.cache) t.iter.bloom_cookie in
    record t { iter = record t.iter { mark = mark; bloom_cookie = cookie } }

-- A move of the iterator's tracker.
abbrev pub on_tracker : Op → Twins → Result (Unit {0}) × Twins
on_tracker op t = let (r, s) = op t.at in (r, record t { at = s })

abbrev pub goto_candidate : Items → Twins → Result (Unit {0}) × Twins
goto_candidate a t = elim t.iter.mark [
  | none ↦ (ok tt, t)
  | some mark ↦ on_tracker (tracker_goto_mark_internal a mark) t
]

-- `at` is the state of a new tracker in the box.
unfoldable pub box_index_cache_lookup_key_twins :
    Items → Value → TrackPath → State → Result (Unit {0}) × Twins
unfolding next_candidate bloom_book_lookup_word_from_mark array_get_index_mark
    tracker_goto_mark_internal expr_value_to_hashable track_path_eq
box_index_cache_lookup_key_twins a item_key in_slice_path at =
    let from_mark : Option ℕ =
      if not (track_path_eq in_slice_path path_notype)
      then array_get_index_mark at.cache (path_index in_slice_path)
      else none in
    goto_candidate a (
      next_candidate (record {
        iter = record {
          bloom_cookie =
              bloom_book_lookup_word_from_mark (book_of at.cache) (expr_value_to_hashable item_key)
                from_mark;
          key = item_key;
          mark = none;
          in_slice_path = in_slice_path;
          from_mark = from_mark;
          first = true;
        };
        at = at;
      }))

unfoldable pub tracker_goto_next_key_match_in_mark : Items → Value → ℕ → Op
unfolding tracker_goto_next_key_match__array array_get_mark_start_index
tracker_goto_next_key_match_in_mark a key mark s =
    tracker_goto_next_key_match__array a key
      (path_array (array_get_mark_start_index s.cache (mark + 1))) s

-- Past the keys before the slice, behind the mark of its start.
unfoldable pub skip_initial :
    Items → Value → ℕ → ℤ → ℕ → Result (Unit {0}) × State → Result (Unit {0}) × State
unfolding tracker_goto_next_key_match_in_mark
skip_initial a key mark from zero (r, s) = (err error, s)
skip_initial a key mark from (suc left) (err e, s) = (err e, s)
skip_initial a key mark from (suc left) (ok tt, s) =
    let rest =
      skip_initial a key mark from left
        (andthen (go_next a s) (tracker_goto_next_key_match_in_mark a key mark)) in
    if ltb_ℤ (index_of s) from then rest else (ok tt, s)

abbrev pub same_mark : ℕ → Option ℕ → Bool
same_mark mark none = false
same_mark mark (some mark') = mark == mark'

-- The search behind a mark, and then the check against the end of the slice: the end of the search
-- for good if it is passed.
unfoldable pub find_behind_mark : Items → TwinIterator → ℕ → Op
unfolding skip_initial tracker_goto_next_key_match_in_mark
find_behind_mark a iter mark s =
    let found = tracker_goto_next_key_match_in_mark a iter.key mark s in
    let skipped = skip_initial a iter.key mark (path_index iter.in_slice_path) a.max_rounds found in
    if same_mark mark iter.from_mark then skipped else found

abbrev pub is_behind_end : TwinIterator → State → Bool
is_behind_end iter s =
    let index_end = path_index_end iter.in_slice_path in
    not (eqb_ℤ index_end unset) && leb_ℤ index_end (index_of s)

-- The exits of the loop: with the status and the fields that are set behind it, or with
-- BITPUNCH_NO_ITEM at once.
abbrev pub leave_loop : Result (Unit {0}) → Twins → Result (Unit {0}) × Twins
leave_loop r t = (r, record t { iter = record t.iter { from_mark = none; first = false } })

-- From the next mark on, if there is one.
abbrev pub resume : (Twins → Result (Unit {0}) × Twins) → Items → Twins → Result (Unit {0}) × Twins
resume again a t = elim t.iter.mark [
  | none ↦ (err no_item, t)
  | some mark ↦
      let (r, t') = on_tracker (tracker_goto_mark_internal a mark) t in
      elim r [ err e ↦ leave_loop (err e) t' | ok done ↦ again t' ]
]

abbrev pub after_mark :
    (Twins → Result (Unit {0}) × Twins)
    → Items
    → Result (Unit {0})
    → Twins
    → Result (Unit {0}) × Twins
after_mark again a (ok tt) t =
    if is_behind_end t.iter t.at then (err no_item, t) else leave_loop (ok tt) t
after_mark again a (err no_item) t = resume again a (next_candidate t)
after_mark again a (err e) t = leave_loop (err e) t

unfoldable pub twin_loop : Items → ℕ → Twins → Result (Unit {0}) × Twins
unfolding find_behind_mark next_candidate tracker_goto_mark_internal
twin_loop a zero t = (err error, t)
twin_loop a (suc left) t = elim t.iter.mark [
  | none ↦ (err no_item, t)
  | some mark ↦
      let (r, s) = find_behind_mark a t.iter mark t.at in
      after_mark (twin_loop a left) a r (record t { at = s })
]

abbrev pub start_twin : Items → Twins → Result (Unit {0}) × Twins
start_twin a t = if t.iter.first then (ok tt, t) else on_tracker (go_next a) t

-- The path of the item that it finds is `cur` of the iterator's tracker.
unfoldable pub index_cache_iterator_next_twin : Items → Twins → Result (Unit {0}) × Twins
unfolding twin_loop
index_cache_iterator_next_twin a t = elim t.iter.mark [
  | none ↦ (err no_item, t)
  | some mark ↦
      let (r, t') = start_twin a t in
      elim r [ err e ↦ (err e, t') | ok done ↦ twin_loop a a.max_rounds t' ]
]
