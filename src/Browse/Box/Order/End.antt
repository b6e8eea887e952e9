-- ===== src/Browse/Box/Order/End.antt =====
-- The end of a box: what an accepted offset lies within, and the setter that keeps the order.
use bitpunch.Base.{true, ◌≡◌}
use bitpunch.Base.Int.{ℤ, ◌+ℤ◌}
use bitpunch.Status.{ok}
use bitpunch.Browse.Box.{Box, is_known, box_get_offset}
use bitpunch.Browse.Box.Check.{
  has_used_end, end_outer_slack, end_outer_span, end_outer_used, end_outer_min_span,
  end_inner_min_span, end_inner_used, end_inner_span, end_inner_slack, end_inner_parent,
}
use bitpunch.Browse.Box.Order.{
  IsOrdered, IsEndOrdered, not_below-limit, not_above-limit, not_below-step, not_above-step,
}

module _ (box : Box) (offset : ℤ) (v : IsEndOrdered box) where
  pub end_hard_min-min_span :
      end_inner_min_span box offset ≡ ok tt
      → IsOrdered (true) (box.start_offset_span +ℤ box.filter_min_span_size) (offset)
  unfolding end_inner_min_span box_get_offset
  end_hard_min-min_span e =
      not_below-limit true (box.start_offset_span +ℤ box.filter_min_span_size) offset (ok tt) e

  pub end_hard_min-used :
      end_inner_used box offset ≡ ok tt
      → IsOrdered (true) (box.start_offset_span +ℤ box.filter_min_span_size) (offset)
  unfolding end_inner_used
  end_hard_min-used e =
      not_below-step (is_known box.end_offset_min_span) true box.end_offset_min_span offset
        (box.start_offset_span +ℤ box.filter_min_span_size) (end_inner_min_span box offset) e
        v.hard_min_min_span end_hard_min-min_span

  pub end_hard_min-span :
      end_inner_span box offset ≡ ok tt
      → IsOrdered (true) (box.start_offset_span +ℤ box.filter_min_span_size) (offset)
  unfolding end_inner_span
  end_hard_min-span e =
      not_below-step (has_used_end box) true box.end_offset_used offset
        (box.start_offset_span +ℤ box.filter_min_span_size) (end_inner_used box offset) e
        v.hard_min_used end_hard_min-used

  pub end_hard_min-slack :
      end_inner_slack box offset ≡ ok tt
      → IsOrdered (true) (box.start_offset_span +ℤ box.filter_min_span_size) (offset)
  unfolding end_inner_slack
  end_hard_min-slack e =
      not_below-step (is_known box.end_offset_span) true box.end_offset_span offset
        (box.start_offset_span +ℤ box.filter_min_span_size) (end_inner_span box offset) e
        v.hard_min_span end_hard_min-span

  pub end_hard_min-parent :
      end_inner_parent box offset ≡ ok tt
      → IsOrdered (true) (box.start_offset_span +ℤ box.filter_min_span_size) (offset)
  unfolding end_inner_parent
  end_hard_min-parent e =
      not_below-step (is_known box.end_offset_slack) true box.end_offset_slack offset
        (box.start_offset_span +ℤ box.filter_min_span_size) (end_inner_slack box offset) e
        v.hard_min_slack end_hard_min-slack

  pub end_min_span-used :
      end_inner_used box offset ≡ ok tt
      → IsOrdered (is_known box.end_offset_min_span) (box.end_offset_min_span) (offset)
  unfolding end_inner_used
  end_min_span-used e =
      not_below-limit (is_known box.end_offset_min_span) box.end_offset_min_span offset
        (end_inner_min_span box offset) e

  pub end_min_span-span :
      end_inner_span box offset ≡ ok tt
      → IsOrdered (is_known box.end_offset_min_span) (box.end_offset_min_span) (offset)
  unfolding end_inner_span
  end_min_span-span e =
      not_below-step (has_used_end box) (is_known box.end_offset_min_span) box.end_offset_used
        offset box.end_offset_min_span (end_inner_used box offset) e v.min_span_used
        end_min_span-used

  pub end_used-span :
      end_inner_span box offset ≡ ok tt
      → IsOrdered (has_used_end box) (box.end_offset_used) (offset)
  unfolding end_inner_span
  end_used-span e =
      not_below-limit (has_used_end box) box.end_offset_used offset (end_inner_used box offset) e

  pub end_span-slack :
      end_inner_slack box offset ≡ ok tt
      → IsOrdered (is_known box.end_offset_span) (box.end_offset_span) (offset)
  unfolding end_inner_slack
  end_span-slack e =
      not_below-limit (is_known box.end_offset_span) box.end_offset_span offset
        (end_inner_span box offset) e

  pub end_max_span-span :
      end_outer_span box offset ≡ ok tt
      → IsOrdered (is_known box.end_offset_max_span) (offset) (box.end_offset_max_span)
  unfolding end_outer_span
  end_max_span-span e =
      not_above-limit (is_known box.end_offset_max_span) box.end_offset_max_span offset
        (end_outer_slack box offset) e

  pub end_span-used :
      end_outer_used box offset ≡ ok tt
      → IsOrdered (is_known box.end_offset_span) (offset) (box.end_offset_span)
  unfolding end_outer_used
  end_span-used e =
      not_above-limit (is_known box.end_offset_span) box.end_offset_span offset
        (end_outer_span box offset) e

  pub end_used-min_span :
      end_outer_min_span box offset ≡ ok tt
      → IsOrdered (has_used_end box) (offset) (box.end_offset_used)
  unfolding end_outer_min_span
  end_used-min_span e =
      not_above-limit (has_used_end box) box.end_offset_used offset (end_outer_used box offset) e

  pub end_span-min_span :
      end_outer_min_span box offset ≡ ok tt
      → IsOrdered (is_known box.end_offset_span) (offset) (box.end_offset_span)
  unfolding end_outer_min_span
  end_span-min_span e =
      not_above-step (has_used_end box) (is_known box.end_offset_span) box.end_offset_used offset
        box.end_offset_span (end_outer_used box offset) e v.used_span end_span-used
