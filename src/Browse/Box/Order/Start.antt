-- ===== src/Browse/Box/Order/Start.antt =====
-- The start of a box: what an accepted offset lies within, and the setter that keeps the order.
use bitpunch.Base.{true, ◌≡◌}
use bitpunch.Base.Int.{ℤ, ◌-ℤ◌}
use bitpunch.Status.{ok}
use bitpunch.Browse.Box.{Box, is_known, box_get_offset}
use bitpunch.Browse.Box.Check.{
  has_used_start, start_outer_slack, start_outer_span, start_outer_used, start_outer_min_span,
  start_inner_min_span, start_inner_used, start_inner_span, start_inner_slack, start_inner_parent,
}
use bitpunch.Browse.Box.Order.{
  IsOrdered, IsStartOrdered, not_below-limit, not_above-limit, not_below-step, not_above-step,
}

module _ (box : Box) (offset : ℤ) (v : IsStartOrdered box) where
  pub start_hard_min-min_span :
      start_inner_min_span box offset ≡ ok tt
      → IsOrdered (true) (offset) (box.end_offset_span -ℤ box.filter_min_span_size)
  unfolding start_inner_min_span box_get_offset
  start_hard_min-min_span e =
      not_above-limit true (box.end_offset_span -ℤ box.filter_min_span_size) offset (ok tt) e

  pub start_hard_min-used :
      start_inner_used box offset ≡ ok tt
      → IsOrdered (true) (offset) (box.end_offset_span -ℤ box.filter_min_span_size)
  unfolding start_inner_used
  start_hard_min-used e =
      not_above-step (is_known box.start_offset_min_span) true box.start_offset_min_span offset
        (box.end_offset_span -ℤ box.filter_min_span_size) (start_inner_min_span box offset) e
        v.hard_min_min_span start_hard_min-min_span

  pub start_hard_min-span :
      start_inner_span box offset ≡ ok tt
      → IsOrdered (true) (offset) (box.end_offset_span -ℤ box.filter_min_span_size)
  unfolding start_inner_span
  start_hard_min-span e =
      not_above-step (has_used_start box) true box.start_offset_used offset
        (box.end_offset_span -ℤ box.filter_min_span_size) (start_inner_used box offset) e
        v.hard_min_used start_hard_min-used

  pub start_hard_min-slack :
      start_inner_slack box offset ≡ ok tt
      → IsOrdered (true) (offset) (box.end_offset_span -ℤ box.filter_min_span_size)
  unfolding start_inner_slack
  start_hard_min-slack e =
      not_above-step (is_known box.start_offset_span) true box.start_offset_span offset
        (box.end_offset_span -ℤ box.filter_min_span_size) (start_inner_span box offset) e
        v.hard_min_span start_hard_min-span

  pub start_hard_min-parent :
      start_inner_parent box offset ≡ ok tt
      → IsOrdered (true) (offset) (box.end_offset_span -ℤ box.filter_min_span_size)
  unfolding start_inner_parent
  start_hard_min-parent e =
      not_above-step (is_known box.start_offset_slack) true box.start_offset_slack offset
        (box.end_offset_span -ℤ box.filter_min_span_size) (start_inner_slack box offset) e
        v.hard_min_slack start_hard_min-slack

  pub start_min_span-used :
      start_inner_used box offset ≡ ok tt
      → IsOrdered (is_known box.start_offset_min_span) (offset) (box.start_offset_min_span)
  unfolding start_inner_used
  start_min_span-used e =
      not_above-limit (is_known box.start_offset_min_span) box.start_offset_min_span offset
        (start_inner_min_span box offset) e

  pub start_min_span-span :
      start_inner_span box offset ≡ ok tt
      → IsOrdered (is_known box.start_offset_min_span) (offset) (box.start_offset_min_span)
  unfolding start_inner_span
  start_min_span-span e =
      not_above-step (has_used_start box) (is_known box.start_offset_min_span) box.start_offset_used
        offset box.start_offset_min_span (start_inner_used box offset) e v.min_span_used
        start_min_span-used

  pub start_used-span :
      start_inner_span box offset ≡ ok tt
      → IsOrdered (has_used_start box) (offset) (box.start_offset_used)
  unfolding start_inner_span
  start_used-span e =
      not_above-limit (has_used_start box) box.start_offset_used offset
        (start_inner_used box offset) e

  pub start_span-slack :
      start_inner_slack box offset ≡ ok tt
      → IsOrdered (is_known box.start_offset_span) (offset) (box.start_offset_span)
  unfolding start_inner_slack
  start_span-slack e =
      not_above-limit (is_known box.start_offset_span) box.start_offset_span offset
        (start_inner_span box offset) e

  pub start_max_span-span :
      start_outer_span box offset ≡ ok tt
      → IsOrdered (is_known box.start_offset_max_span) (box.start_offset_max_span) (offset)
  unfolding start_outer_span
  start_max_span-span e =
      not_below-limit (is_known box.start_offset_max_span) box.start_offset_max_span offset
        (start_outer_slack box offset) e

  pub start_span-used :
      start_outer_used box offset ≡ ok tt
      → IsOrdered (is_known box.start_offset_span) (box.start_offset_span) (offset)
  unfolding start_outer_used
  start_span-used e =
      not_below-limit (is_known box.start_offset_span) box.start_offset_span offset
        (start_outer_span box offset) e

  pub start_used-min_span :
      start_outer_min_span box offset ≡ ok tt
      → IsOrdered (has_used_start box) (box.start_offset_used) (offset)
  unfolding start_outer_min_span
  start_used-min_span e =
      not_below-limit (has_used_start box) box.start_offset_used offset
        (start_outer_used box offset) e

  pub start_span-min_span :
      start_outer_min_span box offset ≡ ok tt
      → IsOrdered (is_known box.start_offset_span) (box.start_offset_span) (offset)
  unfolding start_outer_min_span
  start_span-min_span e =
      not_below-step (has_used_start box) (is_known box.start_offset_span) box.start_offset_used
        offset box.start_offset_span (start_outer_used box offset) e v.used_span start_span-used
