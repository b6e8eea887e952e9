-- ===== src/Browse/Sizes/Allocation.antt =====
-- The slack allocation of a box where the filters of its parents fail.
use bitpunch.Base.{Bool, true, false, not, if◌then◌else◌, ◌≡◌, refl, sym, ap}
use mathlib.Core.Path.{subst}
use bitpunch.Status.{Status, Result, ok, err}
use bitpunch.Browse.Sizes.{
  State, Op, Backends, andthen, set_allocating, box_get_slack_child_allocation, child_allocation,
}
use bitpunch.Browse.Sizes.Frame.{Mark, Keeps}

left_after :
    {A B : Type 0} (r : Result A × State) (k : A → Op B) (status : Status)
    → r.0 ≡ err status
    → r.1.node.computing_slack_child_allocation ≡ true
    → ((andthen r k).0 ≡ err status)
      × ((andthen r k).1.node.computing_slack_child_allocation ≡ true)
left_after (ok a, s) k status e up = cc
left_after (err e', s) k status e up = (cc, up)

if-not : {A : Type 0} (b : Bool) (x y : A) → b ≡ false → (if not b then x else y) ≡ x
if-not true x y e = cc
if-not false x y e = refl

-- When the filters of the parents fail with a status, for a box that is not in the middle of the
-- computation, and they keep the flags, the slack allocation of the box fails with that status,
-- and leaves its flag COMPUTING_SLACK_CHILD_ALLOCATION set.
pub slack_child_allocation_left :
    (h : Backends) (s : State) (left : Bool) (status : Status)
    → Keeps h.apply_parent_filter
    → s.node.computing_slack_child_allocation ≡ false
    → (h.apply_parent_filter (set_allocating true s)).0 ≡ err status
    → ((box_get_slack_child_allocation h left s).0 ≡ err status)
      × ((box_get_slack_child_allocation h left s).1.node.computing_slack_child_allocation ≡ true)
unfolding box_get_slack_child_allocation
slack_child_allocation_left h s left status kept down failed =
    let b = s.node.computing_slack_child_allocation in
    let start = if not b then set_allocating true s else s in
    let started : set_allocating true s ≡ start = sym (if-not b (set_allocating true s) s down) in
    left_after (h.apply_parent_filter start) (λ _. child_allocation h (not b) left) status
      (subst (λ (z : State). (h.apply_parent_filter z).0 ≡ err status) started failed)
      (subst
        (λ (z : State). (h.apply_parent_filter z).1.node.computing_slack_child_allocation ≡ true)
        started (ap (λ (m : Mark). m.allocating) (kept (set_allocating true s)).here))
