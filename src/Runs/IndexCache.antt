-- ===== src/Runs/IndexCache.antt =====
-- Runs of the moves by key: an array of four items with two keys, of which two items are cached.
use bitpunch.Base.{
  ℕ, suc, ◌*◌, ◌/◌, ◌%◌, ◌<◌, ◌≡◌, ◌∙◌, refl, ap, arith, true, false, ltb, if◌then◌else◌, some, [],
}
use bitpunch.Base.Int.{ℤ, pos, negsuc, ◌+ℤ◌, ◌-ℤ◌}
use bitpunch.Status.{Result, ok, err, no_item}
use bitpunch.Expr.Values.{Value, integer, expr_value_cmp, sign_of, c_int}
use bitpunch.Browse.Box.{unset}
use bitpunch.Arrays.Tracker.{Tracker, path_array, path_index, tracker_set_dangling, tracker_set_end}
use bitpunch.Utils.Bloom.{bloom_book_create}
use bitpunch.Arrays.IndexCache.{
  ArrayCache, Items, State, array_index_cache_init, tracker_index_cache_add_item,
}
use bitpunch.Arrays.IndexCache.Moves.{tracker_goto_last_cached_item_internal, tracker_rewind}
use bitpunch.Arrays.IndexCache.Match.{tracker_goto_next_key_match__array, match_loop}
use bitpunch.Arrays.IndexCache.Keyed.{
  browse_tail, tracker_goto_next_item_with_key__indexed_array_internal,
  tracker_goto_next_item_with_key__indexed_array, tracker_goto_nth_item_with_key__indexed_array,
}
use bitpunch.Arrays.IndexCache.Coherent.{IsCoherent, init-IsCoherent, add_item-IsCoherent}
use bitpunch.Arrays.IndexCache.Placed.{Contents, IsAt}
use bitpunch.Arrays.IndexCache.Searched.{IsIndexed}
use bitpunch.Arrays.IndexCache.NextKeyed.{HasMoved, tracker_goto_next_item_with_key_finds}
use bitpunch.Arrays.IndexCache.ItemKey.{tracker_get_item_key_multi_internal}
use bitpunch.Arrays.IndexCache.KeyRoundTrip.{LeadsBack, tracker_goto_nth_item_with_key-get_item_key}
use bitpunch.Arrays.IndexCache.Nth.{tracker_goto_nth_item__array_non_slack_var_item_size}
use bitpunch.Arrays.IndexCache.NthItem.{
  HasGone, tracker_goto_nth_item__array_non_slack_var_item_size_reaches,
}
use bitpunch.Arrays.IndexCache.NthKeyed.{HasStayed, tracker_goto_nth_item_with_key_finds}

-- Items of 8 bytes each.
abbrev contents : Contents
contents = record {
  key = λ i. integer (pos (i % 2));
  offset = λ i. pos (8 * i);
  is_variable = true;
}

abbrev place : ℕ → Tracker
place i = record {
  cur = path_array (pos i);
  has_filter = true;
  has_item = true;
  at_end = false;
  need_item_offset = true;
  reversed = false;
  item_offset = pos (8 * i);
  item_size = unset;
}

abbrev new_tracker : Tracker
new_tracker = record (place 0) {
  cur = path_array unset;
  has_filter = false;
  has_item = false;
  need_item_offset = false;
  item_offset = unset;
}

place-IsAt : (i : ℕ) → IsAt contents i (place i)
place-IsAt i = record {
  cur = refl;
  filter = refl;
  not_end = refl;
  forward = refl;
  needed = refl;
  offset = refl;
}

abbrev first : Tracker → Tracker
first tk = record tk { cur = path_array (pos 0); has_filter = true; item_offset = pos 0 }

abbrev advanced : ℕ → Tracker → Tracker
advanced i tk = record tk { cur = path_array (pos i); item_offset = tk.item_offset +ℤ pos 8 }

abbrev step : ℤ → Tracker → Result (Unit {0}) × Tracker
step (pos i) tk =
    if ltb (suc i) 4 then (ok tt, advanced (suc i) tk) else (err no_item, tracker_set_end tk)
step (negsuc i) tk = (err no_item, tk)

-- The key is read from the place of the item.
abbrev key_at : ℤ → Result Value
key_at (pos z) = ok (integer (pos (z / 8 % 2)))
key_at (negsuc z) = err no_item

abbrev items : Items
items = record {
  goto_first_item = λ tk. (ok tt, first tk);
  goto_next_item = λ tk. step (path_index tk.cur) tk;
  item_key = λ tk. key_at tk.item_offset;
  item_type = ok true;
  item_min_span_size = pos 1;
  is_filter = true;
  has_key_expr = true;
  start_offset_span = pos 0;
  max_rounds = 6;
}

next_offset : (i : ℕ) → pos (8 * i) +ℤ pos 8 ≡ pos (8 * suc i)
unfolding ◌+ℤ◌
next_offset i = ground arith

next-IsAt :
    (i : ℕ) (tk : Tracker) → IsAt contents i tk → IsAt contents (suc i) (advanced (suc i) tk)
next-IsAt i tk at = record {
  cur = refl;
  filter = at.filter;
  not_end = at.not_end;
  forward = at.forward;
  needed = at.needed;
  offset = ap (λ (z : ℤ). z +ℤ pos 8) at.offset ∙ next_offset i;
}

step-next : (i : ℕ) (tk : Tracker) → suc i < 4 → step (pos i) tk ≡ (ok tt, advanced (suc i) tk)
step-next i tk h = ground arith

step-last : (i : ℕ) (tk : Tracker) → suc i ≡ 4 → step (pos i) tk ≡ (err no_item, tracker_set_end tk)
step-last i tk h = ground arith

items-IsIndexed : (wanted : ℕ) → IsIndexed items 4 contents (integer (pos wanted))
unfolding expr_value_cmp tracker_set_end
items-IsIndexed wanted = record {
  filter = refl;
  keyed = refl;
  typed = refl;
  fixed = λ e. cc;
  rounds = omega arith;
  first = λ tk rewound h. (
    first tk,
    refl,
    record {
      cur = refl;
      filter = refl;
      not_end = rewound.not_end;
      forward = rewound.forward;
      needed = rewound.needed;
      offset = refl;
    },
  );
  empty = λ tk rewound h. absurd (omega (arith, h));
  next = λ i tk at h. (
    advanced (suc i) tk,
    ap (λ path. step (path_index path) tk) at.cur ∙ step-next i tk h,
    next-IsAt i tk at,
  );
  last = λ i tk at h. (
    tracker_set_end tk,
    ap (λ path. step (path_index path) tk) at.cur ∙ step-last i tk h,
    at.forward,
  );
  keys = λ i tk at h.
      ap key_at at.offset
      ∙ ap (λ (k : ℕ). ok (integer (pos (k % 2)))) (let e : 8 * i / 8 ≡ i = omega arith in e);
  comparable = λ i h. (sign_of (pos (i % 2)) (pos wanted), refl);
}

abbrev new_cache : ArrayCache
new_cache = record {
  cache_by_key = some bloom_book_create;
  mark_offsets = some [];
  last_cached_index = unset;
  last_cached_item = false;
  last_cached_item_offset = unset;
  cache_log2_n_keys_per_mark = 5;
}

new_cache_init : array_index_cache_init items true ≡ ok new_cache
unfolding array_index_cache_init
new_cache_init = refl

abbrev one_cached : State
one_cached =
    tracker_index_cache_add_item (contents.key 0) (record { tk = place 0; cache = new_cache })

abbrev two_cached : State
two_cached = tracker_index_cache_add_item (contents.key 1) (record one_cached { tk = place 1 })

two_cached-IsCoherent : IsCoherent contents 2 two_cached.cache
two_cached-IsCoherent =
    add_item-IsCoherent contents 1 (record one_cached { tk = place 1 })
      (add_item-IsCoherent contents 0 (record { tk = place 0; cache = new_cache })
        (init-IsCoherent items contents new_cache refl new_cache_init) (place-IsAt 0))
      (place-IsAt 1)

-- At the first item, with two items cached.
abbrev first_of_two : State
first_of_two = record two_cached { tk = place 0 }

-- Behind the end, with two items cached.
abbrev ended : Tracker
ended = record (place 3) { at_end = true; has_filter = false; has_item = false }

next_keyed_example : HasMoved 4 contents (integer (pos 1)) 1 2 (place 0) (
    tracker_goto_next_item_with_key__indexed_array items new_tracker (integer (pos 1)) first_of_two)
next_keyed_example =
    tracker_goto_next_item_with_key_finds items 4 contents (integer (pos 1)) new_tracker 1 2
      first_of_two (items-IsIndexed 1) two_cached-IsCoherent (omega arith) (omega arith) refl refl
      refl

nth_keyed_example : HasStayed items 4 contents (integer (pos 1)) (items-IsIndexed 1) 1 ended (
    tracker_goto_nth_item_with_key__indexed_array items new_tracker
      (integer (pos 1))
      (pos 1)
      (record two_cached { tk = ended }))
nth_keyed_example =
    tracker_goto_nth_item_with_key_finds items 4 contents (integer (pos 1)) (items-IsIndexed 1) 1
      new_tracker 2 (record two_cached { tk = ended }) (pos 3) two_cached-IsCoherent (omega arith)
      refl refl refl

-- At the last item, the second one with its key, with two items cached; back from the end.
key_number_example :
    LeadsBack items 4 contents 3
      (omega arith)
      (items-IsIndexed 1)
      new_tracker
      ended
      (place 3)
      (tracker_get_item_key_multi_internal items new_tracker (record two_cached { tk = place 3 }))
key_number_example =
    tracker_goto_nth_item_with_key-get_item_key items 4 contents 3 (omega arith) (items-IsIndexed 1)
      new_tracker new_tracker ended 2 (record two_cached { tk = place 3 }) (pos 3)
      two_cached-IsCoherent (omega arith) (place-IsAt 3) refl refl refl refl

-- From the end to the last item, with two items cached.
nth_item_example :
    HasGone items 4 contents
      (integer (pos 1))
      (items-IsIndexed 1)
      new_tracker
      3
      2
      true
      (record two_cached { tk = ended })
      (tracker_goto_nth_item__array_non_slack_var_item_size items
        (ok (pos 4))
        new_tracker
        (pos 3)
        (record two_cached { tk = ended }))
nth_item_example =
    tracker_goto_nth_item__array_non_slack_var_item_size_reaches items 4 contents (integer (pos 1))
      (items-IsIndexed 1) new_tracker 3 2 (record two_cached { tk = ended }) (pos 3)
      two_cached-IsCoherent (omega arith) refl refl

-- From the third item, with no item cached, the next item with its key is the first one.
behind_cache_run :
    (tracker_goto_next_item_with_key__indexed_array items new_tracker
      (integer (pos 0))
      (record { tk = place 2; cache = new_cache })).1.tk.cur
    ≡ path_array (pos 0)
unfolding tracker_goto_next_item_with_key__indexed_array
    tracker_goto_next_item_with_key__indexed_array_internal browse_tail
    tracker_goto_last_cached_item_internal tracker_rewind tracker_set_dangling
    tracker_goto_next_key_match__array match_loop expr_value_cmp sign_of c_int ◌-ℤ◌ ◌+ℤ◌
    tracker_index_cache_add_item
behind_cache_run = refl
