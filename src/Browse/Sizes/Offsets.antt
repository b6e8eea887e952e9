-- ===== src/Browse/Sizes/Offsets.antt =====
-- libbitpunch/src/core/browse.c: a size and an offset of a box by their types.
use bitpunch.Base.{Bool, not, if◌then◌else◌}
use bitpunch.Base.Int.{ℤ}
use bitpunch.Status.{err, invalid_param}
use bitpunch.Browse.Box.{
  Box, Level, hard_min, min_span, span, max_span, slack, parent, used, OffsetType, start_offset,
  end_offset, box_get_offset,
}
use bitpunch.Browse.Sizes.{
  Op, Backends, ◌>>=◌, ◌>>◌, pure, size_of, box_get_min_span_size, box_get_span_size,
  box_get_max_span_size, box_get_used_size, box_compute_slack_size,
}

module _ (h : Backends) where
  -- box_compute_size_internal; a type of offset stands for the size between its two ends.
  unfoldable pub box_compute_size_internal : Level → Op ℤ
  unfolding box_get_min_span_size box_get_span_size box_get_max_span_size box_get_used_size
      box_compute_slack_size
  box_compute_size_internal min_span = box_get_min_span_size h
  box_compute_size_internal span = box_get_span_size h
  box_compute_size_internal max_span = box_get_max_span_size h
  box_compute_size_internal slack =
      box_compute_slack_size h >> size_of h (λ b. b.start_offset_slack) (λ b. b.end_offset_slack)
  box_compute_size_internal parent =
      size_of h (λ b. b.start_offset_parent) (λ b. b.end_offset_parent)
  box_compute_size_internal used = box_get_used_size h
  box_compute_size_internal hard_min = λ s. (err invalid_param, s)

  abbrev is_free : Box → OffsetType → Bool
  is_free box (start_offset level) = box.is_ralign
  is_free box (end_offset level) = not box.is_ralign

  abbrev level_of : OffsetType → Level
  level_of (start_offset level) = level
  level_of (end_offset level) = level

  abbrev free_size : OffsetType → Op (Unit {0})
  free_size off_type s =
      if is_free s.node.box off_type
      then (box_compute_size_internal (level_of off_type) >>= λ _. pure tt) s
      else pure tt s

  -- The assertion that the offset is known is left out.
  unfoldable pub box_compute_offset_internal : OffsetType → Op ℤ
  unfolding box_compute_size_internal
  box_compute_offset_internal off_type =
      h.apply_parent_filter
      >> free_size off_type
      >> (λ s. pure (box_get_offset s.node.box off_type) s)
