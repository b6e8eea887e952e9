-- ===== src/Arrays/Tracker.antt =====
-- libbitpunch/src/core/browse.c: a tracker in an array, the checks and moves that the filters
-- share, and the monad that their code is written in.
use bitpunch.Base.{ℕ, Bool, true, false, not, ◌&&◌, ◌==◌, if◌then◌else◌}
use bitpunch.Base.Int.{ℤ, pos, eqb_ℤ, ltb_ℤ, ◌+ℤ◌, ◌-ℤ◌}
use bitpunch.Status.{Status, Result, ok, err, no_item, invalid_param, out_of_bounds_error}
use bitpunch.Expr.Values.{Value}
use bitpunch.Browse.Box.{
  Box, Mask, unset, max_span, slack, parent, box_get_known_start_offset,
  box_get_known_start_offset_mask, box_get_known_end_offset, box_get_known_end_offset_mask,
}

-- `struct track_path`; a field is a pointer.
pub data TrackPath : Type 0 where
  path_notype : TrackPath
  path_field : ℕ → TrackPath
  path_array : ℤ → TrackPath
  path_array_slice : ℤ → ℤ → TrackPath

unfoldable pub track_path_eq : TrackPath → TrackPath → Bool
track_path_eq path_notype path_notype = true
track_path_eq (path_field f) (path_field g) = f == g
track_path_eq (path_array i) (path_array j) = eqb_ℤ i j
track_path_eq (path_array_slice i i') (path_array_slice j j') = eqb_ℤ i j && eqb_ℤ i' j'
track_path_eq _ _ = false

-- `cur.u.array.index`, which is read and written in a path to an array only.
abbrev pub path_index : TrackPath → ℤ
path_index (path_array i) = i
path_index (path_array_slice i i') = i
path_index _ = unset

abbrev pub with_index : TrackPath → ℤ → TrackPath
with_index (path_array i) j = path_array j
with_index (path_array_slice i i') j = path_array_slice j i'
with_index path _ = path

-- `struct tracker`: whether its `dpath.filter` and `dpath.item` are set, its flags and its place.
pub record Tracker : Type 0 where
  pub cur : TrackPath
  pub has_filter : Bool
  pub has_item : Bool
  pub at_end : Bool
  pub need_item_offset : Bool
  pub reversed : Bool
  pub item_offset : ℤ
  pub item_size : ℤ

-- What a move changes: the tracker, the box of the array, and the number of items that is kept
-- in the state of the array and in that of the slice, -1 before it is computed.
pub record State : Type 0 where
  pub tk : Tracker
  pub box : Box
  pub n_items : ℤ
  pub slice_n_items : ℤ

abbrev pub Op : Type 0
Op = State → Result (Unit {0}) × State

abbrev pub andthen : Result (Unit {0}) × State → Op → Result (Unit {0}) × State
andthen (ok tt, s) k = k s
andthen (err e, s) k = (err e, s)

infixl 5 ◌>>◌
abbrev pub ◌>>◌ : Op → Op → Op
◌>>◌ m k s = andthen (m s) k

abbrev pub pure : Op
pure s = (ok tt, s)

abbrev pub fail : Status → Op
fail status s = (err status, s)

abbrev pub modify : (Tracker → Tracker) → Op
modify f s = (ok tt, record s { tk = f s.tk })

abbrev pub if_fails : Result (Unit {0}) × State → (State → State) → Result (Unit {0}) × State
if_fails (ok tt, s) rollback = (ok tt, s)
if_fails (err status, s) rollback = (err status, rollback s)

-- What the code takes from elsewhere: the value of the array's size expression (none for an
-- array that takes all the slack), the filter of its items and their least size, the state of
-- the box, and the callbacks that find an item's place.
pub record Array : Type 0 where
  pub item_count : Result Value
  pub has_item_count : Bool
  pub item_filter : Result Bool
  pub item_min_span_size : ℤ
  pub computing_slack_child_allocation : Bool
  pub apply_parent_filter : Box → Result Box
  pub compute_slack_size : Box → Result Box
  pub compute_item_offset : Op
  pub compute_item_location : Op

abbrev put_box : Result Box → Op
put_box (ok box) s = (ok tt, record s { box = box })
put_box (err status) s = (err status, s)

abbrev pub on_box : (Box → Result Box) → Op
on_box f s = put_box (f s.box) s

abbrev pub tracker_is_dangling : Tracker → Bool
tracker_is_dangling tk = not tk.has_filter

abbrev pub tracker_reset_item_cache : Tracker → Tracker
tracker_reset_item_cache tk = record tk { item_size = unset; has_item = false }

abbrev pub tracker_reset_dpath : Tracker → Tracker
tracker_reset_dpath tk = record tk { has_filter = false; has_item = false }

unfoldable pub tracker_set_end : Tracker → Tracker
tracker_set_end tk = record (tracker_reset_dpath (tracker_reset_item_cache tk)) { at_end = true }

-- With the backend goto_nil of the arrays.
unfoldable pub tracker_set_dangling : Tracker → Tracker
tracker_set_dangling tk = record (tracker_reset_dpath (tracker_reset_item_cache tk)) {
  at_end = false;
  cur = path_array unset;
}

abbrev found_item : Result Bool → Op
found_item (ok true) s = modify (λ tk. record tk { has_item = true }) s
found_item (ok false) s = fail invalid_param s
found_item (err status) s = fail status s

unfoldable pub tracker_compute_item_filter : Array → Op
tracker_compute_item_filter a s =
    if tracker_is_dangling s.tk
    then fail no_item s
    else (if s.tk.has_item then pure s else found_item a.item_filter s)

-- BOX_..._OFFSET_MAX_SPAN | BOX_..._OFFSET_SLACK | BOX_..._OFFSET_PARENT
abbrev outer_levels : Mask
outer_levels level = elim level [ max_span ↦ true | slack ↦ true | parent ↦ true | _ ↦ false ]

unfoldable pub max_item_offset : Array → State → ℤ
max_item_offset a s =
    if s.tk.reversed
    then (if a.computing_slack_child_allocation
        then box_get_known_start_offset_mask s.box outer_levels
        else box_get_known_start_offset s.box)
    else (if a.computing_slack_child_allocation
        then box_get_known_end_offset_mask s.box outer_levels
        else box_get_known_end_offset s.box)

unfoldable pub current_item_size : Array → Tracker → ℤ
current_item_size a tk =
    if not (eqb_ℤ tk.item_size unset)
    then tk.item_size
    else (if not (tracker_is_dangling tk) then a.item_min_span_size else pos 0)

unfoldable pub check_item_place : Array → Op
unfolding max_item_offset current_item_size
check_item_place a s =
    let limit = max_item_offset a s in
    let size = current_item_size a s.tk in
    if not (eqb_ℤ s.tk.item_offset unset) && not (eqb_ℤ limit unset)
    then (if (if s.tk.reversed
          then ltb_ℤ (s.tk.item_offset -ℤ size) limit
          else ltb_ℤ limit (s.tk.item_offset +ℤ size))
        then fail out_of_bounds_error s
        else pure s)
    else pure s

unfoldable pub find_item : Array → Op
unfolding tracker_compute_item_filter
find_item a s =
    if tracker_is_dangling s.tk
    then pure s
    else (if s.tk.need_item_offset && eqb_ℤ s.tk.item_offset unset
        then a.compute_item_offset s
        else tracker_compute_item_filter a s)

unfoldable pub tracker_check_item : Array → Op
unfolding find_item check_item_place
tracker_check_item a = find_item a >> check_item_place a
