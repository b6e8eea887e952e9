-- ===== src/Arrays/SliceWalk.antt =====
-- Iterating over a slice against indexing it and counting its items.
use bitpunch.Base.{true, ℕ, zero, suc, ◌+◌, ◌-◌, ◌≤◌, ◌<◌, false, ◌≡◌, refl, arith}
use bitpunch.Base.Int.{pos, ◌+ℤ◌, ◌-ℤ◌}
use mathlib.Core.Path.{subst}
use bitpunch.Status.{Result, ok, err, no_item}
use bitpunch.Browse.Box.{unset}
use bitpunch.Arrays.Tracker.{
  State, Op, Array, path_array, ◌>>◌, andthen, pure, tracker_set_dangling,
}
use bitpunch.Arrays.Slice.{
  Slice, to_int, count_slice, tracker_goto_nth_item__array_slice, tracker_goto_next_item,
}
use bitpunch.Arrays.Walk.{IsReady, IsAt, nth-ready, next-ready, next_index}

-- A left-aligned slice with items b to e - 1 of an array of n bytes, none of which is beyond
-- the range of an `int`, and whose items can be located by a
-- tracker that stands at one.
pub record IsWithin (slice : Slice) (a : Array) (b e n : ℕ) : Type 0 where
  pub from : slice.index_start ≡ pos b
  pub to : slice.index_end ≡ pos e
  pub left : slice.slice_box.is_ralign ≡ false
  pub some_items : b < e
  pub inside : e ≤ n
  pub small : b < 2147483648
  pub located : (s : State) → s.tk.has_filter ≡ true → (a.compute_item_location s).0 ≡ ok tt

to_int-small : (b : ℕ) → b < 2147483648 → to_int (pos b) ≡ pos b
unfolding to_int
to_int-small b h = ground arith

first-ready :
    (slice : Slice) (a : Array) (b e n : ℕ) (s : State)
    → IsWithin slice a b e n
    → IsReady a n s
    → s.tk.has_filter ≡ false
    → s.tk.at_end ≡ false
    → ((tracker_goto_next_item slice a s).0 ≡ ok tt)
      × IsAt a n b (tracker_goto_next_item slice a s).1
unfolding tracker_goto_next_item tracker_set_dangling
first-ready slice a b e n s w v dangling open_end =
    let s' : State = record s { tk = record (tracker_set_dangling s.tk) { item_offset = unset } } in
    let v' : IsReady a n s' = record {
      counted = v.counted;
      count = v.count;
      applied = v.applied;
      items = v.items;
      left = v.left;
      forward = v.forward;
      lazy = v.lazy;
      no_offset = refl;
      cached = v.cached;
    } in
    let from = w.from in
    let to = w.to in
    let nth = nth-ready a n b s' v' (omega (arith, w.some_items, w.inside)) in
    ground (arith, nth, to_int-small b w.small)

step-ready :
    (slice : Slice) (a : Array) (b e n i : ℕ) (s : State)
    → IsWithin slice a b e n
    → IsAt a n i s
    → i + 1 < e
    → ((tracker_goto_next_item slice a s).0 ≡ ok tt)
      × IsAt a n (i + 1) (tracker_goto_next_item slice a s).1
unfolding tracker_goto_next_item
step-ready slice a b e n i s w at h =
    let to = w.to in
    let left = w.left in
    let forward = at.ready.forward in
    let cur = at.cur in
    let filtered = at.filtered in
    let inside = at.inside in
    let next = next-ready a n i s at (omega (arith, w.inside)) in ground (arith, next, next_index i)

end-ready :
    (slice : Slice) (a : Array) (b e n i : ℕ) (s : State)
    → IsWithin slice a b e n
    → IsAt a n i s
    → i + 1 ≡ e
    → (tracker_goto_next_item slice a s).0 ≡ err no_item
unfolding tracker_goto_next_item
end-ready slice a b e n i s w at h =
    let to = w.to in
    let left = w.left in
    let forward = at.ready.forward in
    let cur = at.cur in
    let filtered = at.filtered in
    let inside = at.inside in ground (arith, w.located s filtered, next_index i)

-- The tracker moves on k times.
unfoldable pub nexts : Slice → Array → ℕ → Op
nexts slice a zero = pure
nexts slice a (suc k) = nexts slice a k >> tracker_goto_next_item slice a

andthen-ok : (r : Result (Unit {0}) × State) (k : Op) → r.0 ≡ ok tt → andthen r k ≡ k r.1
andthen-ok (ok tt, s) k e = refl
andthen-ok (err status, s) k e = cc

sub_start : (b e : ℕ) → b ≤ e → pos e -ℤ pos b ≡ pos (e - b)
unfolding ◌-ℤ◌
sub_start b e h = ground arith

add_start : (b k : ℕ) → pos b +ℤ pos k ≡ pos (b + k)
unfolding ◌+ℤ◌
add_start b k = ground arith

nexts-ready :
    (slice : Slice) (a : Array) (b e n k : ℕ) (s : State)
    → IsWithin slice a b e n
    → IsReady a n s
    → s.tk.has_filter ≡ false
    → s.tk.at_end ≡ false
    → b + k < e
    → ((nexts slice a (suc k) s).0 ≡ ok tt) × IsAt a n (b + k) (nexts slice a (suc k) s).1
unfolding nexts
nexts-ready slice a b e n zero s w v d o h =
    let first = first-ready slice a b e n s w v d o in
    (
      first.0,
      subst (λ (i : ℕ). IsAt a n i (tracker_goto_next_item slice a s).1) (omega arith) first.1,
    )
nexts-ready slice a b e n (suc k) s w v d o h =
    let ih = nexts-ready slice a b e n k s w v d o (omega arith) in
    let step = step-ready slice a b e n (b + k) (nexts slice a (suc k) s).1 w ih.1 (omega arith) in
    rw (andthen-ok (nexts slice a (suc k) s) (tracker_goto_next_item slice a) ih.0) (
      step.0,
      subst (λ (i : ℕ). IsAt a n i (tracker_goto_next_item slice a (nexts slice a (suc k) s).1).1)
          (omega arith) step.1,
    )

nth-at :
    (slice : Slice) (a : Array) (b e n k : ℕ) (s : State)
    → IsWithin slice a b e n
    → IsReady a n s
    → b + k < e
    → ((tracker_goto_nth_item__array_slice slice a (pos k) s).0 ≡ ok tt)
      × ((tracker_goto_nth_item__array_slice slice a (pos k) s).1.tk.cur ≡ path_array (pos (b + k)))
unfolding tracker_goto_nth_item__array_slice
nth-at slice a b e n k s w v h =
    let from = w.from in
    let to = w.to in
    let nth = nth-ready a n (b + k) s v (omega (arith, w.inside)) in
    ground (arith, nth, add_start b k, sub_start b e)

nexts-end :
    (slice : Slice) (a : Array) (b e n j : ℕ) (s : State)
    → IsWithin slice a b e n
    → IsReady a n s
    → s.tk.has_filter ≡ false
    → s.tk.at_end ≡ false
    → b + j + 1 ≡ e
    → (nexts slice a (suc (suc j)) s).0 ≡ err no_item
unfolding nexts
nexts-end slice a b e n j s w v d o h =
    let here = nexts-ready slice a b e n j s w v d o (omega arith) in
    rw (andthen-ok (nexts slice a (suc j) s) (tracker_goto_next_item slice a) here.0)
      (end-ready slice a b e n (b + j) (nexts slice a (suc j) s).1 w here.1 h)

count_slice-within :
    (slice : Slice) (a : Array) (b e n : ℕ)
    → IsWithin slice a b e n
    → count_slice slice (pos n) ≡ pos (e - b)
unfolding count_slice
count_slice-within slice a b e n w =
    let from = w.from in
    let to = w.to in
    let inside = w.inside in
    let items = w.some_items in ground (arith, add_start b n, sub_start b e)

nth-end :
    (slice : Slice) (a : Array) (b e n : ℕ) (s : State)
    → IsWithin slice a b e n
    → (tracker_goto_nth_item__array_slice slice a (pos (e - b)) s).0 ≡ err no_item
unfolding tracker_goto_nth_item__array_slice
nth-end slice a b e n s w =
    let from = w.from in let to = w.to in let items = w.some_items in ground (arith, sub_start b e)

-- For a slice with items b to e - 1 of an array with a size expression of value n, with b below
-- 2 ^ 31, in left-aligned boxes that the parents' filters leave alone, whose items can be found and
-- located, and with a forward tracker that keeps no offsets: moving on k + 1 times from a tracker
-- that stands nowhere and asking for item k both succeed, and lead to item b + k of the array, for
-- every k below e - b.
pub slice_walk :
    (slice : Slice) (a : Array) (b e n k : ℕ) (s : State)
    → IsWithin slice a b e n
    → IsReady a n s
    → s.tk.has_filter ≡ false
    → s.tk.at_end ≡ false
    → b + k < e
    → ((nexts slice a (suc k) s).0 ≡ ok tt)
      × ((nexts slice a (suc k) s).1.tk.cur ≡ path_array (pos (b + k)))
      × ((tracker_goto_nth_item__array_slice slice a (pos k) s).0 ≡ ok tt)
      × ((tracker_goto_nth_item__array_slice slice a (pos k) s).1.tk.cur ≡ path_array (pos (b + k)))
slice_walk slice a b e n k s w v d o h =
    let (moved, at) = nexts-ready slice a b e n k s w v d o h in
    let (asked, there) = nth-at slice a b e n k s w v h in (moved, at.cur, asked, there)

-- For a slice with items b to e - 1 of an array with a size expression of value n, with b below
-- 2 ^ 31, in left-aligned boxes that the parents' filters leave alone, whose items can be found and
-- located, and with a forward tracker that keeps no offsets: moving on e - b + 1 times from a
-- tracker that stands nowhere and asking for item e - b both report BITPUNCH_NO_ITEM, and e - b is
-- the number of items that the slice counts.
pub slice_walk_end :
    (slice : Slice) (a : Array) (b e n : ℕ) (s : State)
    → IsWithin slice a b e n
    → IsReady a n s
    → s.tk.has_filter ≡ false
    → s.tk.at_end ≡ false
    → ((nexts slice a (suc (e - b)) s).0 ≡ err no_item)
      × ((tracker_goto_nth_item__array_slice slice a (pos (e - b)) s).0 ≡ err no_item)
      × (count_slice slice (pos n) ≡ pos (e - b))
slice_walk_end slice a b e n s w v d o =
    let items = w.some_items in
    let last : suc (e - b - 1) ≡ e - b = omega arith in
    (
      subst (λ (m : ℕ). (nexts slice a (suc m) s).0 ≡ err no_item) last
          (nexts-end slice a b e n (e - b - 1) s w v d o (omega arith)),
      nth-end slice a b e n s w,
      count_slice-within slice a b e n w,
    )
