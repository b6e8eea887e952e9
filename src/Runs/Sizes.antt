-- ===== src/Runs/Sizes.antt =====
-- Runs of the computation of sizes: a box with backends that set its sizes, and one whose parents'
-- filters fail.
use bitpunch.Base.{ℕ, true, false, ◌≡◌, refl, []}
use bitpunch.Base.Int.{pos, ◌+ℤ◌, ◌-ℤ◌}
use bitpunch.Status.{ok, err, data_error}
use bitpunch.Browse.Box.{Box, is_known, box_get_offset}
use bitpunch.Browse.Box.Place.{box_set_size, box_set_end_offset, with_end}
use bitpunch.Browse.Box.Check.{box_check_end_offset}
use bitpunch.Browse.Sizes.{
  State, Op, Backends, pure, with_node, in_scope, box_get_min_span_size, box_get_span_size,
  box_get_max_span_size, box_get_used_size, box_get_slack_child_allocation,
  box_compute_min_span_size, box_compute_span_size, box_compute_max_span_size, compute_max_span,
  choose_span,
}
use bitpunch.Browse.Sizes.Frame.{Keeps, AreKeeping, box_get_size-Keeps}
use bitpunch.Browse.Sizes.Allocation.{slack_child_allocation_left}
use bitpunch.Browse.Delegate.{ItemCallbacks, box_compute_span_size__span_expr}
use bitpunch.Browse.Delegate.Span.{IsSpanOf, box_compute_span_size__span_expr_sizes}
use bitpunch.Runs.Box.{fresh}

abbrev ends_at : (ℕ → Box → Box) → ℕ → Op (Unit {0})
ends_at set n s = (ok tt, with_node (λ node. record node { box = set n node.box }) s)

abbrev backends : Backends
backends = record {
  apply_parent_filter = pure tt;
  compute_min_span_size = ends_at (λ n box. record box { end_offset_min_span = pos n }) 6;
  compute_span_size = ends_at (λ n box. record box { end_offset_span = pos n }) 8;
  compute_max_span_size = ends_at (λ n box. record box { end_offset_max_span = pos n }) 9;
  compute_used_size = ends_at (λ n box. record box { end_offset_used = pos n }) 8;
  get_slack_child_allocation = λ left. pure (pos 9);
  get_n_items = pure (pos 3);
}

abbrev failing : Backends
failing = record backends { apply_parent_filter = λ s. (err data_error, s) }

abbrev start : State
start = record {
  node = record {
    box = fresh;
    address = 7;
    is_filter = false;
    computing_span_size = false;
    computing_slack_child_allocation = false;
    has_slack_backend = true;
  };
  parents = [];
  scope = 5;
}

span_run : (box_get_span_size backends start).0 ≡ ok (pos 4)
unfolding box_get_span_size box_compute_span_size box_compute_min_span_size
    box_compute_max_span_size compute_max_span choose_span in_scope ◌-ℤ◌
span_run = refl

backends-AreKeeping : AreKeeping backends
backends-AreKeeping = record {
  apply = λ s. record { scope = refl; here = refl; above = refl };
  min_span = λ s. record { scope = refl; here = refl; above = refl };
  span = λ s. record { scope = refl; here = refl; above = refl };
  max_span = λ s. record { scope = refl; here = refl; above = refl };
  used = λ s. record { scope = refl; here = refl; above = refl };
}

flags_kept_example :
    Keeps (box_get_min_span_size backends)
    × Keeps (box_get_span_size backends)
    × Keeps (box_get_max_span_size backends)
    × Keeps (box_get_used_size backends)
flags_kept_example = box_get_size-Keeps backends backends-AreKeeping

left_example :
    ((box_get_slack_child_allocation failing false start).0 ≡ err data_error)
    × ((box_get_slack_child_allocation failing false start).1.node.computing_slack_child_allocation
        ≡ true)
left_example =
    slack_child_allocation_left failing start false data_error
      (λ s. record { scope = refl; here = refl; above = refl }) refl refl

-- A filter with "@span: 5".
abbrev five : ItemCallbacks
five = record {
  evaluate_attribute = λ attr. pure (pos 5);
  compute_item_size = λ first last. pure (pos 5);
  compute_item_size_from_buffer = λ first size. pure (pos 5);
}

abbrev spanned : State
spanned = (box_compute_span_size__span_expr five backends start).1

spanned_run : box_compute_span_size__span_expr five backends start ≡ (ok tt, spanned)
unfolding box_compute_span_size__span_expr box_set_size box_set_end_offset with_end
    box_check_end_offset is_known box_get_offset ◌+ℤ◌ ◌-ℤ◌
spanned_run = refl

spanned_example : IsSpanOf (ok (pos 5)) spanned.node.box
spanned_example = box_compute_span_size__span_expr_sizes five backends start spanned spanned_run
