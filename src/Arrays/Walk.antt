-- ===== src/Arrays/Walk.antt =====
-- The moves of a tracker in an array of bytes whose state is in order.
use bitpunch.Base.{ℕ, ◌+◌, ◌<◌, true, false, ◌≡◌, ◌⊎◌, refl, arith}
use bitpunch.Base.Int.{pos, ◌+ℤ◌}
use bitpunch.Status.{ok}
use bitpunch.Expr.Values.{integer}
use bitpunch.Browse.Box.{unset}
use bitpunch.Arrays.Tracker.{
  State, Array, path_array, tracker_check_item, tracker_compute_item_filter,
}
use bitpunch.Arrays.ByteArray.{
  box_get_n_items, go_to_item, count_of, tracker_goto_nth_item__byte_array,
  tracker_goto_next_item__byte_array,
}

-- A left-aligned array with a size expression of value n, in a box that its parents' filters
-- leave alone, and a forward tracker in it that keeps no offsets.
pub record IsReady (a : Array) (n : ℕ) (s : State) : Type 0 where
  pub counted : a.has_item_count ≡ true
  pub count : a.item_count ≡ ok (integer (pos n))
  pub applied : a.apply_parent_filter s.box ≡ ok s.box
  pub items : a.item_filter ≡ ok true
  pub left : s.box.is_ralign ≡ false
  pub forward : s.tk.reversed ≡ false
  pub lazy : s.tk.need_item_offset ≡ false
  pub no_offset : s.tk.item_offset ≡ unset
  pub cached : (s.n_items ≡ unset) ⊎ (s.n_items ≡ pos n)

pub box_get_n_items-ready :
    (a : Array) (n : ℕ) (s : State)
    → IsReady a n s
    → box_get_n_items a s ≡ (ok tt, record s { n_items = pos n })
unfolding box_get_n_items count_of
box_get_n_items-ready a n s v = ground arith

pub nth-ready :
    (a : Array) (n i : ℕ) (s : State)
    → IsReady a n s
    → i < n
    → tracker_goto_nth_item__byte_array a (pos i) s ≡ (
      ok tt,
      record s {
        n_items = pos n;
        tk = record s.tk { at_end = false; has_filter = true; cur = path_array (pos i) };
      },
    )
unfolding tracker_goto_nth_item__byte_array go_to_item
nth-ready a n i s v h = ground (arith, box_get_n_items-ready a n s v)

-- The tracker stands at item i of n.
pub record IsAt (a : Array) (n i : ℕ) (s : State) : Type 0 where
  pub ready : IsReady a n s
  pub known : s.n_items ≡ pos n
  pub cur : s.tk.cur ≡ path_array (pos i)
  pub filtered : s.tk.has_filter ≡ true
  pub inside : s.tk.at_end ≡ false

check-ready :
    (a : Array) (n : ℕ) (s : State)
    → IsReady a n s
    → s.tk.has_filter ≡ true
    → tracker_check_item a s ≡ (ok tt, record s { tk = record s.tk { has_item = true } })
unfolding tracker_check_item tracker_compute_item_filter
check-ready a n s v h =
    let items = v.items in let lazy = v.lazy in let no_offset = v.no_offset in ground arith

pub next_index : (i : ℕ) → pos i +ℤ pos 1 ≡ pos (i + 1)
unfolding ◌+ℤ◌
next_index i = ground arith

-- The state after a step from item i to the next one.
abbrev pub stepped : ℕ → State → State
stepped i s = record s {
  tk = record s.tk { cur = path_array (pos (i + 1)); has_filter = true; has_item = true };
}

pub next-ready :
    (a : Array) (n i : ℕ) (s : State)
    → IsAt a n i s
    → i + 1 < n
    → tracker_goto_next_item__byte_array a s ≡ (ok tt, stepped i s)
unfolding tracker_goto_next_item__byte_array
next-ready a n i s v h =
    let lazy = v.ready.lazy in
    let known = v.known in
    let cur = v.cur in
    let s' : State = record s {
      tk = record s.tk { cur = path_array (pos (i + 1)); has_filter = true };
    } in
    let checked =
      check-ready a n s'
        (record {
          counted = v.ready.counted;
          count = v.ready.count;
          applied = v.ready.applied;
          items = v.ready.items;
          left = v.ready.left;
          forward = v.ready.forward;
          lazy = v.ready.lazy;
          no_offset = v.ready.no_offset;
          cached = v.ready.cached;
        })
        refl in
    ground (arith, next_index i, checked)
