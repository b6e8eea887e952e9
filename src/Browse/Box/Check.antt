-- ===== src/Browse/Box/Check.antt =====
-- libbitpunch/src/core/browse.c: box_check_start_offset and box_check_end_offset. Each of their
-- two switches falls through from a case to the next one: one definition for each case label.
use bitpunch.Base.{Bool, true, false, ◌&&◌, not, if◌then◌else◌}
use bitpunch.Base.Int.{ℤ, ltb_ℤ}
use bitpunch.Status.{Result, ok, err, out_of_bounds_error, ◌>>◌}
use bitpunch.Browse.Box.{Box, is_known, box_get_offset, start_offset, end_offset}
use bitpunch.Browse.Box.{OffsetType, Level, hard_min, min_span, span, max_span, slack, parent, used}

abbrev pub Checked : Type 0
Checked = Result (Unit {0})

-- `if (known) { if (offset < limit) return error; break; }`, else the next case.
abbrev pub not_below : Bool → ℤ → ℤ → Checked → Checked
not_below known limit offset next =
    if known then (if ltb_ℤ offset limit then err out_of_bounds_error else ok tt) else next

abbrev pub not_above : Bool → ℤ → ℤ → Checked → Checked
not_above known limit offset next =
    if known then (if ltb_ℤ limit offset then err out_of_bounds_error else ok tt) else next

-- `type == BOX_END_OFFSET_USED`, the test that both functions begin with.
abbrev pub is_end_offset_used : OffsetType → Bool
is_end_offset_used (end_offset used) = true
is_end_offset_used _ = false

abbrev pub has_used_start : Box → Bool
has_used_start box = box.is_overlay && is_known box.start_offset_used

abbrev pub has_used_end : Box → Bool
has_used_end box = box.is_overlay && is_known box.end_offset_used

module _ (box : Box) (offset : ℤ) where
  -- box_check_start_offset, the first switch: the limits farther out.
  unfoldable pub start_outer_slack : Checked
  start_outer_slack =
      not_below (is_known box.start_offset_parent) box.start_offset_parent offset (ok tt)

  unfoldable pub start_outer_span : Checked
  unfolding start_outer_slack
  start_outer_span =
      not_below (is_known box.start_offset_max_span) box.start_offset_max_span offset
        start_outer_slack

  unfoldable pub start_outer_used : Checked
  unfolding start_outer_span
  start_outer_used =
      not_below (is_known box.start_offset_span) box.start_offset_span offset start_outer_span

  unfoldable pub start_outer_min_span : Checked
  unfolding start_outer_used
  start_outer_min_span =
      not_below (has_used_start box) box.start_offset_used offset start_outer_used

  unfoldable pub start_outer_hard_min : Checked
  unfolding start_outer_min_span
  start_outer_hard_min =
      not_below (is_known box.start_offset_min_span) box.start_offset_min_span offset
        start_outer_min_span

  abbrev pub start_outer : Level → Checked
  start_outer hard_min = start_outer_hard_min
  start_outer min_span = start_outer_min_span
  start_outer used = start_outer_used
  start_outer span = start_outer_span
  start_outer slack = start_outer_slack
  start_outer parent = ok tt
  start_outer max_span = ok tt

  -- The second switch: the limits farther in.
  unfoldable pub start_inner_min_span : Checked
  start_inner_min_span = not_above true (box_get_offset box (start_offset hard_min)) offset (ok tt)

  unfoldable pub start_inner_used : Checked
  unfolding start_inner_min_span
  start_inner_used =
      not_above (is_known box.start_offset_min_span) box.start_offset_min_span offset
        start_inner_min_span

  unfoldable pub start_inner_span : Checked
  unfolding start_inner_used
  start_inner_span = not_above (has_used_start box) box.start_offset_used offset start_inner_used

  unfoldable pub start_inner_slack : Checked
  unfolding start_inner_span
  start_inner_slack =
      not_above (is_known box.start_offset_span) box.start_offset_span offset start_inner_span

  unfoldable pub start_inner_parent : Checked
  unfolding start_inner_slack
  start_inner_parent =
      not_above (is_known box.start_offset_slack) box.start_offset_slack offset start_inner_slack

  abbrev pub start_inner : Level → Checked
  start_inner parent = start_inner_parent
  start_inner slack = start_inner_slack
  start_inner max_span = start_inner_slack
  start_inner span = start_inner_span
  start_inner used = start_inner_used
  start_inner min_span = start_inner_min_span
  start_inner hard_min = ok tt

  unfoldable pub box_check_start_offset : Level → Checked
  unfolding start_outer_hard_min start_inner_parent
  box_check_start_offset level =
      if not box.is_overlay && is_end_offset_used (start_offset level)
      then ok tt
      else (start_outer level >> start_inner level)

  -- box_check_end_offset, the first switch: the limits farther out.
  unfoldable pub end_outer_slack : Checked
  end_outer_slack = not_above (is_known box.end_offset_parent) box.end_offset_parent offset (ok tt)

  unfoldable pub end_outer_span : Checked
  unfolding end_outer_slack
  end_outer_span =
      not_above (is_known box.end_offset_max_span) box.end_offset_max_span offset end_outer_slack

  unfoldable pub end_outer_used : Checked
  unfolding end_outer_span
  end_outer_used =
      not_above (is_known box.end_offset_span) box.end_offset_span offset end_outer_span

  unfoldable pub end_outer_min_span : Checked
  unfolding end_outer_used
  end_outer_min_span = not_above (has_used_end box) box.end_offset_used offset end_outer_used

  unfoldable pub end_outer_hard_min : Checked
  unfolding end_outer_min_span
  end_outer_hard_min =
      not_above (is_known box.end_offset_min_span) box.end_offset_min_span offset end_outer_min_span

  abbrev pub end_outer : Level → Checked
  end_outer hard_min = end_outer_hard_min
  end_outer min_span = end_outer_min_span
  end_outer used = end_outer_used
  end_outer span = end_outer_span
  end_outer slack = end_outer_slack
  end_outer parent = ok tt
  end_outer max_span = ok tt

  -- The second switch: the limits farther in.
  unfoldable pub end_inner_min_span : Checked
  end_inner_min_span = not_below true (box_get_offset box (end_offset hard_min)) offset (ok tt)

  unfoldable pub end_inner_used : Checked
  unfolding end_inner_min_span
  end_inner_used =
      not_below (is_known box.end_offset_min_span) box.end_offset_min_span offset end_inner_min_span

  unfoldable pub end_inner_span : Checked
  unfolding end_inner_used
  end_inner_span = not_below (has_used_end box) box.end_offset_used offset end_inner_used

  unfoldable pub end_inner_slack : Checked
  unfolding end_inner_span
  end_inner_slack =
      not_below (is_known box.end_offset_span) box.end_offset_span offset end_inner_span

  unfoldable pub end_inner_parent : Checked
  unfolding end_inner_slack
  end_inner_parent =
      not_below (is_known box.end_offset_slack) box.end_offset_slack offset end_inner_slack

  abbrev pub end_inner : Level → Checked
  end_inner parent = end_inner_parent
  end_inner slack = end_inner_slack
  end_inner max_span = end_inner_slack
  end_inner span = end_inner_span
  end_inner used = end_inner_used
  end_inner min_span = end_inner_min_span
  end_inner hard_min = ok tt

  unfoldable pub box_check_end_offset : Level → Checked
  unfolding end_outer_hard_min end_inner_parent
  box_check_end_offset level =
      if not box.is_overlay && is_end_offset_used (end_offset level)
      then ok tt
      else (end_outer level >> end_inner level)
