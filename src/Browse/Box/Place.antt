-- ===== src/Browse/Box/Place.antt =====
-- libbitpunch/src/core/browse.c: the setters of a box's offsets. A call that fails leaves the box
-- as it is; one that returns BITPUNCH_OK gives the new box.
use bitpunch.Base.{ℕ, ◌+◌, Bool, true, ◌||◌, not, if◌then◌else◌, ◌==◌}
use bitpunch.Base.{Option, none, some}
use bitpunch.Base.Int.{ℤ, ltb_ℤ, eqb_ℤ, ◌+ℤ◌, ◌-ℤ◌}
use bitpunch.Status.{Result, ok, err, data_error, ◌>>◌}
use bitpunch.Browse.Box.{
  Box, Level, hard_min, min_span, span, max_span, slack, parent, used, unset,
  box_get_known_start_offset, box_get_known_end_offset,
}
use bitpunch.Browse.Box.Check.{box_check_start_offset, box_check_end_offset}

abbrev pub min_ℤ : ℤ → ℤ → ℤ
min_ℤ a b = if ltb_ℤ a b then a else b

abbrev pub max_ℤ : ℤ → ℤ → ℤ
max_ℤ a b = if ltb_ℤ b a then a else b

-- The switch of box_set_start_offset.
unfoldable pub with_start : Box → ℤ → Level → Box
with_start box offset parent = record box { start_offset_parent = offset }
with_start box offset slack = record box { start_offset_slack = offset }
with_start box offset max_span = record box { start_offset_max_span = offset }
with_start box offset span = record box { start_offset_span = offset }
with_start box offset min_span = record box {
  start_offset_min_span = min_ℤ offset (box.end_offset_span -ℤ box.filter_min_span_size);
}
with_start box offset used = record box { start_offset_used = offset }
with_start box offset hard_min = box

unfoldable pub box_set_start_offset : Box → ℤ → Level → Result Box
unfolding with_start
box_set_start_offset box offset level = do
  box_check_start_offset box offset level
  ok (with_start box offset level)

-- The switch of box_set_end_offset.
unfoldable pub with_end : Box → ℤ → Level → Box
with_end box offset parent = record box { end_offset_parent = offset }
with_end box offset slack = record box { end_offset_slack = offset }
with_end box offset max_span = record box { end_offset_max_span = offset }
with_end box offset span = record box { end_offset_span = offset }
with_end box offset min_span = record box {
  end_offset_min_span = max_ℤ offset (box.start_offset_span +ℤ box.filter_min_span_size);
}
with_end box offset used = record box { end_offset_used = offset }
with_end box offset hard_min = box

unfoldable pub box_set_end_offset : Box → ℤ → Level → Result Box
unfolding with_end
box_set_end_offset box offset level = do
  box_check_end_offset box offset level
  ok (with_end box offset level)

-- `size_type` names a limit at both ends, of which the call takes the one that is free.
unfoldable pub box_set_size : Box → ℤ → Level → Result Box
unfolding box_set_start_offset box_set_end_offset
box_set_size box box_size level =
    if box.is_ralign
    then box_set_start_offset box (box.end_offset_span -ℤ box_size) level
    else box_set_end_offset box (box.start_offset_span +ℤ box_size) level

abbrev pub box_set_min_span_size : Box → ℤ → Result Box
box_set_min_span_size box size = box_set_size box size min_span

abbrev pub box_set_span_size : Box → ℤ → Result Box
box_set_span_size box size = box_set_size box size span

abbrev pub box_set_max_span_size : Box → ℤ → Result Box
box_set_max_span_size box size = box_set_size box size max_span

abbrev pub box_set_used_size : Box → ℤ → Result Box
box_set_used_size box size = box_set_size box size used

abbrev at_end : Box → ℤ → Box
at_end box offset = record box {
  end_offset_parent = offset;
  end_offset_slack = offset;
  end_offset_max_span = offset;
  end_offset_span = offset;
  end_offset_min_span = offset;
  end_offset_used = offset;
}

abbrev at_start : Box → ℤ → Box
at_start box offset = record box {
  start_offset_parent = offset;
  start_offset_slack = offset;
  start_offset_max_span = offset;
  start_offset_span = offset;
  start_offset_min_span = offset;
  start_offset_used = offset;
}

unfoldable pub box_set_boundary_offset : Box → ℤ → ℤ → Box
box_set_boundary_offset box boundary_offset parent_limit_offset =
    if box.is_ralign
    then (let box' =
          if eqb_ℤ box.end_offset_parent unset then at_end box boundary_offset else box in
        record box' { start_offset_parent = parent_limit_offset })
    else (let box' =
          if eqb_ℤ box.start_offset_parent unset then at_start box boundary_offset else box in
        record box' { end_offset_parent = parent_limit_offset })

-- The second argument is the parent box.
unfoldable pub box_inherit_boundary_offset : Box → Box → Box
unfolding box_set_boundary_offset
box_inherit_boundary_offset box parent_box =
    if box.is_ralign
    then box_set_boundary_offset box (box_get_known_end_offset parent_box)
        (box_get_known_start_offset parent_box)
    else box_set_boundary_offset box (box_get_known_start_offset parent_box)
        (box_get_known_end_offset parent_box)

-- The flags of the track path of a box: its field is a header or a trailer.
pub record PathFlags : Type 0 where
  pub path_header : Bool
  pub path_trailer : Bool

unfoldable pub box_setup_input_boundaries : Box → PathFlags → Box → Box
unfolding box_inherit_boundary_offset
box_setup_input_boundaries box flags parent_box =
    let right_aligned = if box.is_ralign then not flags.path_header else flags.path_trailer in
    box_inherit_boundary_offset (record box { is_ralign = right_aligned || box.is_ralign })
      parent_box

unfoldable pub box_setup_overlay : Box → Box
box_setup_overlay box = record box { is_overlay = true }

abbrev pub box_max_depth_level : ℕ
box_max_depth_level = 4096

-- The part of box_construct that places the box: the level of the parent, if there is one, the
-- flags that the caller gives and its boundary. The box comes with its depth level.
unfoldable pub box_construct : Option ℕ → ℤ → Bool → Bool → ℤ → Result (Box × ℕ)
unfolding box_set_boundary_offset
box_construct parent_level size ralign overlay boundary_offset =
    let box : Box = record {
      start_offset_parent = unset;
      start_offset_slack = unset;
      start_offset_max_span = unset;
      start_offset_span = unset;
      start_offset_min_span = unset;
      start_offset_used = unset;
      end_offset_parent = unset;
      end_offset_slack = unset;
      end_offset_max_span = unset;
      end_offset_span = unset;
      end_offset_min_span = unset;
      end_offset_used = unset;
      is_ralign = ralign;
      is_overlay = overlay;
      filter_min_span_size = size;
    } in
    let box' =
      if eqb_ℤ boundary_offset unset
      then box
      else box_set_boundary_offset box boundary_offset unset in
    elim parent_level [
      | none ↦ ok (box', 0)
      | some level ↦ if level == box_max_depth_level then err data_error else ok (box', level + 1)
    ]
