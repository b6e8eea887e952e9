-- ===== src/Browse/Box/Order/SetEnd.antt =====
-- The setter of an offset at the end keeps the order of the limits.
use bitpunch.Base.{true, ◌&&◌, not, ◌≡◌, inl, inr, refl, ap, Bool-cases, arith}
use bitpunch.Base.Int.{ℤ, eq_of_parts, ◌≤ℤ◌, ◌+ℤ◌}
use bitpunch.Status.{ok, ◌>>◌}
use bitpunch.Browse.Box.{
  Box, Level, hard_min, min_span, span, max_span, slack, parent, used, is_known,
}
use bitpunch.Browse.Box.Check.{
  box_check_end_offset, has_used_end, end_outer_slack, end_outer_span, end_outer_used,
  end_outer_min_span, end_inner_min_span, end_inner_used, end_inner_span, end_inner_slack,
}
use bitpunch.Browse.Box.Place.{max_ℤ, with_end, box_set_end_offset}
use bitpunch.Browse.Box.Order.{
  IsEndOrdered, IsOrdered-and_right, IsOrdered-and_left, IsOrdered-no_overlay, >>-eq-ok,
  ok-injective, checked_other, checked_overlay,
}
use bitpunch.Browse.Box.Order.End.{
  end_hard_min-min_span, end_hard_min-used, end_hard_min-span, end_hard_min-slack,
  end_min_span-used, end_min_span-span, end_used-span, end_span-slack, end_max_span-span,
  end_span-used, end_used-min_span, end_span-min_span,
}
use mathlib.Core.Path.{subst}

max_ℤ-eq : (a b : ℤ) → b ≤ℤ a → max_ℤ a b ≡ a
max_ℤ-eq a b h = ground (arith, eq_of_parts a b)

module _ (box : Box) (offset : ℤ) where
  slack-IsEndOrdered :
      IsEndOrdered box
      → end_inner_slack box offset ≡ ok tt
      → IsEndOrdered (record box { end_offset_slack = offset })
  slack-IsEndOrdered v inner = record {
    span_max_span = v.span_max_span;
    used_span = v.used_span;
    min_span_used = v.min_span_used;
    min_span_span = v.min_span_span;
    hard_min_min_span = v.hard_min_min_span;
    hard_min_used = v.hard_min_used;
    hard_min_span = v.hard_min_span;
    hard_min_max_span = v.hard_min_max_span;
    hard_min_slack = λ _. (end_hard_min-slack box offset v inner) refl;
  }

  max_span-IsEndOrdered :
      IsEndOrdered box
      → end_inner_slack box offset ≡ ok tt
      → IsEndOrdered (record box { end_offset_max_span = offset })
  max_span-IsEndOrdered v inner = record {
    span_max_span =
        IsOrdered-and_left (is_known box.end_offset_span) (is_known offset) (box.end_offset_span)
          (offset) (end_span-slack box offset v inner);
    used_span = v.used_span;
    min_span_used = v.min_span_used;
    min_span_span = v.min_span_span;
    hard_min_min_span = v.hard_min_min_span;
    hard_min_used = v.hard_min_used;
    hard_min_span = v.hard_min_span;
    hard_min_max_span = λ _. (end_hard_min-slack box offset v inner) refl;
    hard_min_slack = v.hard_min_slack;
  }

  span-IsEndOrdered :
      IsEndOrdered box
      → end_outer_span box offset ≡ ok tt
      → end_inner_span box offset ≡ ok tt
      → IsEndOrdered (record box { end_offset_span = offset })
  span-IsEndOrdered v outer inner = record {
    span_max_span =
        IsOrdered-and_right (is_known offset) (is_known box.end_offset_max_span) (offset)
          (box.end_offset_max_span) (end_max_span-span box offset v outer);
    used_span =
        IsOrdered-and_right (is_known offset) (has_used_end box) (box.end_offset_used) (offset)
          (end_used-span box offset v inner);
    min_span_used = v.min_span_used;
    min_span_span =
        IsOrdered-and_left (is_known box.end_offset_min_span) (is_known offset)
          (box.end_offset_min_span) (offset) (end_min_span-span box offset v inner);
    hard_min_min_span = v.hard_min_min_span;
    hard_min_used = v.hard_min_used;
    hard_min_span = λ _. (end_hard_min-span box offset v inner) refl;
    hard_min_max_span = v.hard_min_max_span;
    hard_min_slack = v.hard_min_slack;
  }

  used-IsEndOrdered :
      IsEndOrdered box
      → end_outer_used box offset ≡ ok tt
      → end_inner_used box offset ≡ ok tt
      → IsEndOrdered (record box { end_offset_used = offset })
  used-IsEndOrdered v outer inner = record {
    span_max_span = v.span_max_span;
    used_span =
        IsOrdered-and_left (is_known box.end_offset_span) (box.is_overlay && is_known offset)
          (offset) (box.end_offset_span) (end_span-used box offset v outer);
    min_span_used =
        IsOrdered-and_left (is_known box.end_offset_min_span) (box.is_overlay && is_known offset)
          (box.end_offset_min_span) (offset) (end_min_span-used box offset v inner);
    min_span_span = v.min_span_span;
    hard_min_min_span = v.hard_min_min_span;
    hard_min_used = λ _. (end_hard_min-used box offset v inner) refl;
    hard_min_span = v.hard_min_span;
    hard_min_max_span = v.hard_min_max_span;
    hard_min_slack = v.hard_min_slack;
  }

  min_span-IsEndOrdered :
      IsEndOrdered box
      → end_outer_min_span box offset ≡ ok tt
      → end_inner_min_span box offset ≡ ok tt
      → IsEndOrdered (record box { end_offset_min_span = offset })
  min_span-IsEndOrdered v outer inner = record {
    span_max_span = v.span_max_span;
    used_span = v.used_span;
    min_span_used =
        IsOrdered-and_right (is_known offset) (has_used_end box) (offset) (box.end_offset_used)
          (end_used-min_span box offset v outer);
    min_span_span =
        IsOrdered-and_right (is_known offset) (is_known box.end_offset_span) (offset)
          (box.end_offset_span) (end_span-min_span box offset v outer);
    hard_min_min_span = λ _. (end_hard_min-min_span box offset v inner) refl;
    hard_min_used = v.hard_min_used;
    hard_min_span = v.hard_min_span;
    hard_min_max_span = v.hard_min_max_span;
    hard_min_slack = v.hard_min_slack;
  }

  -- The hard minimum that the setter takes in is never beyond an offset that is accepted.
  with_end-min_span :
      end_inner_min_span box offset ≡ ok tt
      → IsEndOrdered box
      → with_end box offset min_span ≡ record box { end_offset_min_span = offset }
  unfolding with_end
  with_end-min_span inner v =
      let far = end_hard_min-min_span box offset v inner refl in
      ap (λ (z : ℤ). record box { end_offset_min_span = z }) (max_ℤ-eq _ _ far)

  with_end-IsEndOrdered :
      (level : Level)
      → IsEndOrdered box
      → box_check_end_offset box offset level ≡ ok tt
      → IsEndOrdered (with_end box offset level)
  unfolding with_end box_check_end_offset
  with_end-IsEndOrdered hard_min v e = v
  with_end-IsEndOrdered min_span v e =
      let (outer, inner) =
        >>-eq-ok (end_outer_min_span box offset) (end_inner_min_span box offset) (
          checked_other (not box.is_overlay)
            (end_outer_min_span box offset >> end_inner_min_span box offset) e) in
      rw (with_end-min_span inner v) (min_span-IsEndOrdered v outer inner)
  with_end-IsEndOrdered span v e =
      let (outer, inner) = >>-eq-ok (end_outer_span box offset) (end_inner_span box offset) (
        checked_other (not box.is_overlay) (end_outer_span box offset >> end_inner_span box offset)
          e) in
      span-IsEndOrdered v outer inner
  with_end-IsEndOrdered max_span v e =
      let inner = checked_other (not box.is_overlay) (end_inner_slack box offset) e in
      max_span-IsEndOrdered v inner
  with_end-IsEndOrdered slack v e =
      let (outer, inner) = >>-eq-ok (end_outer_slack box offset) (end_inner_slack box offset) (
        checked_other (not box.is_overlay)
          (end_outer_slack box offset >> end_inner_slack box offset) e) in
      slack-IsEndOrdered v inner
  with_end-IsEndOrdered parent v e = record {
    span_max_span = v.span_max_span;
    used_span = v.used_span;
    min_span_used = v.min_span_used;
    min_span_span = v.min_span_span;
    hard_min_min_span = v.hard_min_min_span;
    hard_min_used = v.hard_min_used;
    hard_min_span = v.hard_min_span;
    hard_min_max_span = v.hard_min_max_span;
    hard_min_slack = v.hard_min_slack;
  }
  with_end-IsEndOrdered used v e = elim (Bool-cases box.is_overlay) [
    | inl o ↦
        let (outer, inner) = >>-eq-ok (end_outer_used box offset) (end_inner_used box offset) (
          checked_overlay box.is_overlay (end_outer_used box offset >> end_inner_used box offset) o
            e) in
        used-IsEndOrdered v outer inner
    | inr o ↦ record {
      span_max_span = v.span_max_span;
      used_span =
          IsOrdered-no_overlay (is_known box.end_offset_span) box.is_overlay (is_known offset)
            (offset) (box.end_offset_span) o;
      min_span_used =
          IsOrdered-no_overlay (is_known box.end_offset_min_span) box.is_overlay (is_known offset)
            (box.end_offset_min_span) (offset) o;
      min_span_span = v.min_span_span;
      hard_min_min_span = v.hard_min_min_span;
      hard_min_used =
          IsOrdered-no_overlay true box.is_overlay (is_known offset)
            ((box.start_offset_span +ℤ box.filter_min_span_size)) (offset) o;
      hard_min_span = v.hard_min_span;
      hard_min_max_span = v.hard_min_max_span;
      hard_min_slack = v.hard_min_slack;
    }
  ]

-- A call that sets an offset at the end keeps the order of the limits.
pub box_set_end_offset-IsEndOrdered :
    (box : Box) (offset : ℤ) (level : Level) {box' : Box}
    → IsEndOrdered box
    → box_set_end_offset box offset level ≡ ok box'
    → IsEndOrdered box'
unfolding box_set_end_offset
box_set_end_offset-IsEndOrdered box offset level v e =
    let (checked, same) =
      >>-eq-ok (box_check_end_offset box offset level) (ok (with_end box offset level)) e in
    subst IsEndOrdered (ok-injective same) (with_end-IsEndOrdered box offset level v checked)
