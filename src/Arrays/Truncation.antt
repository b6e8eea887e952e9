-- ===== src/Arrays/Truncation.antt =====
-- The first item of a slice that starts beyond the range of an `int`.
use bitpunch.Base.{ℕ, ◌-◌, ◌≤◌, ◌<◌, ◌≡◌, arith}
use bitpunch.Base.Int.{pos, negsuc}
use bitpunch.Status.{ok}
use bitpunch.Arrays.Tracker.{State, Array, path_array}
use bitpunch.Arrays.ByteArray.{tracker_goto_nth_item__byte_array}
use bitpunch.Arrays.Slice.{Slice, to_int, tracker_goto_first_item__array_slice}
use bitpunch.Arrays.Walk.{IsReady, box_get_n_items-ready}

nth-negative :
    (a : Array) (n m : ℕ) (s : State)
    → IsReady a n s
    → ((tracker_goto_nth_item__byte_array a (negsuc m) s).0 ≡ ok tt)
      × ((tracker_goto_nth_item__byte_array a (negsuc m) s).1.tk.cur ≡ path_array (negsuc m))
unfolding tracker_goto_nth_item__byte_array
nth-negative a n m s v = ground (arith, box_get_n_items-ready a n s v)

to_int-large : (b : ℕ) → 2147483648 ≤ b → b < 4294967295 → to_int (pos b) ≡ negsuc (4294967295 - b)
unfolding to_int
to_int-large b h h' = ground arith

-- The first item of a slice with items b to e - 1, where b is from 2 ^ 31 on and below
-- 2 ^ 32 - 1, of an array with a size expression of value n, in a left-aligned box that the
-- parents' filters leave alone, with a forward tracker that keeps no offsets: the call succeeds,
-- and leads to the negative index b - 2 ^ 32.
pub slice_first_truncated :
    (slice : Slice) (a : Array) (b e n : ℕ) (s : State)
    → slice.index_start ≡ pos b
    → slice.index_end ≡ pos e
    → b < e
    → 2147483648 ≤ b
    → b < 4294967295
    → IsReady a n s
    → ((tracker_goto_first_item__array_slice slice a s).0 ≡ ok tt)
      × ((tracker_goto_first_item__array_slice slice a s).1.tk.cur
          ≡ path_array (negsuc (4294967295 - b)))
unfolding tracker_goto_first_item__array_slice
slice_first_truncated slice a b e n s from to items large fits v =
    let nth = nth-negative a n (4294967295 - b) s v in ground (arith, to_int-large b large fits)
