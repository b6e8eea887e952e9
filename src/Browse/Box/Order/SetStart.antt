-- ===== src/Browse/Box/Order/SetStart.antt =====
-- The setter of an offset at the start keeps the order of the limits.
use bitpunch.Base.{◌&&◌, not, ◌≡◌, refl, ap, arith}
use bitpunch.Base.Int.{ℤ, eq_of_parts, ◌≤ℤ◌}
use bitpunch.Status.{ok, ◌>>◌}
use bitpunch.Browse.Box.{
  Box, Level, hard_min, min_span, span, max_span, slack, parent, used, is_known,
}
use bitpunch.Browse.Box.Check.{
  box_check_start_offset, has_used_start, start_outer_slack, start_outer_span, start_outer_used,
  start_outer_min_span, start_inner_min_span, start_inner_used, start_inner_span, start_inner_slack,
}
use bitpunch.Browse.Box.Place.{min_ℤ, with_start, box_set_start_offset}
use bitpunch.Browse.Box.Order.{
  IsStartOrdered, IsOrdered-and_right, IsOrdered-and_left, >>-eq-ok, ok-injective, checked_other,
}
use bitpunch.Browse.Box.Order.Start.{
  start_hard_min-min_span, start_hard_min-used, start_hard_min-span, start_hard_min-slack,
  start_min_span-used, start_min_span-span, start_used-span, start_span-slack, start_max_span-span,
  start_span-used, start_used-min_span, start_span-min_span,
}
use mathlib.Core.Path.{subst}

min_ℤ-eq : (a b : ℤ) → a ≤ℤ b → min_ℤ a b ≡ a
min_ℤ-eq a b h = ground (arith, eq_of_parts a b)

module _ (box : Box) (offset : ℤ) where
  slack-IsStartOrdered :
      IsStartOrdered box
      → start_inner_slack box offset ≡ ok tt
      → IsStartOrdered (record box { start_offset_slack = offset })
  slack-IsStartOrdered v inner = record {
    span_max_span = v.span_max_span;
    used_span = v.used_span;
    min_span_used = v.min_span_used;
    min_span_span = v.min_span_span;
    hard_min_min_span = v.hard_min_min_span;
    hard_min_used = v.hard_min_used;
    hard_min_span = v.hard_min_span;
    hard_min_max_span = v.hard_min_max_span;
    hard_min_slack = λ _. (start_hard_min-slack box offset v inner) refl;
  }

  max_span-IsStartOrdered :
      IsStartOrdered box
      → start_inner_slack box offset ≡ ok tt
      → IsStartOrdered (record box { start_offset_max_span = offset })
  max_span-IsStartOrdered v inner = record {
    span_max_span =
        IsOrdered-and_left (is_known box.start_offset_span) (is_known offset) (offset)
          (box.start_offset_span) (start_span-slack box offset v inner);
    used_span = v.used_span;
    min_span_used = v.min_span_used;
    min_span_span = v.min_span_span;
    hard_min_min_span = v.hard_min_min_span;
    hard_min_used = v.hard_min_used;
    hard_min_span = v.hard_min_span;
    hard_min_max_span = λ _. (start_hard_min-slack box offset v inner) refl;
    hard_min_slack = v.hard_min_slack;
  }

  span-IsStartOrdered :
      IsStartOrdered box
      → start_outer_span box offset ≡ ok tt
      → start_inner_span box offset ≡ ok tt
      → IsStartOrdered (record box { start_offset_span = offset })
  span-IsStartOrdered v outer inner = record {
    span_max_span =
        IsOrdered-and_right (is_known offset) (is_known box.start_offset_max_span)
          (box.start_offset_max_span) (offset) (start_max_span-span box offset v outer);
    used_span =
        IsOrdered-and_right (is_known offset) (has_used_start box) (offset) (box.start_offset_used)
          (start_used-span box offset v inner);
    min_span_used = v.min_span_used;
    min_span_span =
        IsOrdered-and_left (is_known box.start_offset_min_span) (is_known offset) (offset)
          (box.start_offset_min_span) (start_min_span-span box offset v inner);
    hard_min_min_span = v.hard_min_min_span;
    hard_min_used = v.hard_min_used;
    hard_min_span = λ _. (start_hard_min-span box offset v inner) refl;
    hard_min_max_span = v.hard_min_max_span;
    hard_min_slack = v.hard_min_slack;
  }

  used-IsStartOrdered :
      IsStartOrdered box
      → start_outer_used box offset ≡ ok tt
      → start_inner_used box offset ≡ ok tt
      → IsStartOrdered (record box { start_offset_used = offset })
  used-IsStartOrdered v outer inner = record {
    span_max_span = v.span_max_span;
    used_span =
        IsOrdered-and_left (is_known box.start_offset_span) (box.is_overlay && is_known offset)
          (box.start_offset_span) (offset) (start_span-used box offset v outer);
    min_span_used =
        IsOrdered-and_left (is_known box.start_offset_min_span) (box.is_overlay && is_known offset)
          (offset) (box.start_offset_min_span) (start_min_span-used box offset v inner);
    min_span_span = v.min_span_span;
    hard_min_min_span = v.hard_min_min_span;
    hard_min_used = λ _. (start_hard_min-used box offset v inner) refl;
    hard_min_span = v.hard_min_span;
    hard_min_max_span = v.hard_min_max_span;
    hard_min_slack = v.hard_min_slack;
  }

  min_span-IsStartOrdered :
      IsStartOrdered box
      → start_outer_min_span box offset ≡ ok tt
      → start_inner_min_span box offset ≡ ok tt
      → IsStartOrdered (record box { start_offset_min_span = offset })
  min_span-IsStartOrdered v outer inner = record {
    span_max_span = v.span_max_span;
    used_span = v.used_span;
    min_span_used =
        IsOrdered-and_right (is_known offset) (has_used_start box) (box.start_offset_used) (offset)
          (start_used-min_span box offset v outer);
    min_span_span =
        IsOrdered-and_right (is_known offset) (is_known box.start_offset_span)
          (box.start_offset_span) (offset) (start_span-min_span box offset v outer);
    hard_min_min_span = λ _. (start_hard_min-min_span box offset v inner) refl;
    hard_min_used = v.hard_min_used;
    hard_min_span = v.hard_min_span;
    hard_min_max_span = v.hard_min_max_span;
    hard_min_slack = v.hard_min_slack;
  }

  -- The hard minimum that the setter takes in is never beyond an offset that is accepted.
  with_start-min_span :
      start_inner_min_span box offset ≡ ok tt
      → IsStartOrdered box
      → with_start box offset min_span ≡ record box { start_offset_min_span = offset }
  unfolding with_start
  with_start-min_span inner v =
      let far = start_hard_min-min_span box offset v inner refl in
      ap (λ (z : ℤ). record box { start_offset_min_span = z }) (min_ℤ-eq _ _ far)

  with_start-IsStartOrdered :
      (level : Level)
      → IsStartOrdered box
      → box_check_start_offset box offset level ≡ ok tt
      → IsStartOrdered (with_start box offset level)
  unfolding with_start box_check_start_offset
  with_start-IsStartOrdered hard_min v e = v
  with_start-IsStartOrdered min_span v e =
      let (outer, inner) =
        >>-eq-ok (start_outer_min_span box offset) (start_inner_min_span box offset) (
          checked_other (not box.is_overlay)
            (start_outer_min_span box offset >> start_inner_min_span box offset) e) in
      rw (with_start-min_span inner v) (min_span-IsStartOrdered v outer inner)
  with_start-IsStartOrdered span v e =
      let (outer, inner) = >>-eq-ok (start_outer_span box offset) (start_inner_span box offset) (
        checked_other (not box.is_overlay)
          (start_outer_span box offset >> start_inner_span box offset) e) in
      span-IsStartOrdered v outer inner
  with_start-IsStartOrdered max_span v e =
      let inner = checked_other (not box.is_overlay) (start_inner_slack box offset) e in
      max_span-IsStartOrdered v inner
  with_start-IsStartOrdered slack v e =
      let (outer, inner) = >>-eq-ok (start_outer_slack box offset) (start_inner_slack box offset) (
        checked_other (not box.is_overlay)
          (start_outer_slack box offset >> start_inner_slack box offset) e) in
      slack-IsStartOrdered v inner
  with_start-IsStartOrdered parent v e = record {
    span_max_span = v.span_max_span;
    used_span = v.used_span;
    min_span_used = v.min_span_used;
    min_span_span = v.min_span_span;
    hard_min_min_span = v.hard_min_min_span;
    hard_min_used = v.hard_min_used;
    hard_min_span = v.hard_min_span;
    hard_min_max_span = v.hard_min_max_span;
    hard_min_slack = v.hard_min_slack;
  }
  with_start-IsStartOrdered used v e =
      let (outer, inner) = >>-eq-ok (start_outer_used box offset) (start_inner_used box offset) (
        checked_other (not box.is_overlay)
          (start_outer_used box offset >> start_inner_used box offset) e) in
      used-IsStartOrdered v outer inner

-- A call that sets an offset at the start keeps the order of the limits.
pub box_set_start_offset-IsStartOrdered :
    (box : Box) (offset : ℤ) (level : Level) {box' : Box}
    → IsStartOrdered box
    → box_set_start_offset box offset level ≡ ok box'
    → IsStartOrdered box'
unfolding box_set_start_offset
box_set_start_offset-IsStartOrdered box offset level v e =
    let (checked, same) =
      >>-eq-ok (box_check_start_offset box offset level) (ok (with_start box offset level)) e in
    subst IsStartOrdered (ok-injective same) (with_start-IsStartOrdered box offset level v checked)
