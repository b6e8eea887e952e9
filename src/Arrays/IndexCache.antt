-- ===== src/Arrays/IndexCache.antt =====
-- libbitpunch/src/filters/array_index_cache.c: the cache of an array's items, by mark and by key.
pub mod Moves
pub mod Match
pub mod Twins
pub mod TwinSearch
pub mod Keyed
pub mod ItemKey
pub mod Nth
pub mod Placed
pub mod MarkPlaces
pub mod Coherent
pub mod Searched
pub mod Passing
pub mod MatchFinds
pub mod Candidate
pub mod GotoMark
pub mod MarkFinds
pub mod TwinLookup
pub mod TwinFinds
pub mod LookupFinds
pub mod LastCached
pub mod NextKeyed
pub mod TwinNext
pub mod TwinsBefore
pub mod TwinCount
pub mod TailCount
pub mod NthKeyed
pub mod KeyNumber
pub mod KeyRoundTrip
pub mod NthFinds
pub mod NthStart
pub mod NthItem
use bitpunch.Base.{
  ℕ, zero, suc, ◌+◌, ◌-◌, ◌*◌, ◌/◌, ◌%◌, ◌^◌, bit_and, Bool, true, false, not, ◌&&◌, ◌==◌,
  if◌then◌else◌, Option, none, some, List, [], ◌∷◌, ◌++◌, get_or,
}
use bitpunch.Base.Int.{ℤ, pos, negsuc, eqb_ℤ, ◌+ℤ◌, ◌*ℤ◌}
use bitpunch.Base.Words.{to_u64}
use bitpunch.Status.{Result, ok, err, no_item, ◌>>=◌}
use bitpunch.Expr.Values.{Value, integer, boolean, string, bytes}
use bitpunch.Browse.Box.{unset}
use bitpunch.Arrays.Tracker.{
  Tracker, TrackPath, path_array, path_index, with_index, tracker_is_dangling, tracker_set_dangling,
}
use bitpunch.Utils.Bloom.{
  Book, mark_of, bloom_book_create, bloom_book_add_mark, bloom_book_insert_word,
}

-- `struct array_cache`; the marks' offsets, when there is a repository of them, and the book of
-- keys, when the array is indexed. Of last_cached_item it tells whether it is set.
pub record ArrayCache : Type 0 where
  pub cache_by_key : Option Book
  pub mark_offsets : Option (List ℤ)
  pub last_cached_index : ℤ
  pub last_cached_item : Bool
  pub last_cached_item_offset : ℤ
  pub cache_log2_n_keys_per_mark : ℕ

-- What the code takes from elsewhere: the move to the first item of the array, the callback of its
-- filter that moves on from an item, the value of the key expression in the box of the item that a
-- tracker stands at, the filter of the items (whether the span size of an item is variable), its
-- least size, and the offset of the array's box; and how often a loop may go round.
pub record Items : Type 0 where
  pub goto_first_item : Tracker → Result (Unit {0}) × Tracker
  pub goto_next_item : Tracker → Result (Unit {0}) × Tracker
  pub item_key : Tracker → Result Value
  pub item_type : Result Bool
  pub item_min_span_size : ℤ
  pub is_filter : Bool
  pub has_key_expr : Bool
  pub start_offset_span : ℤ
  pub max_rounds : ℕ

-- A tracker in the array, and the cache of its box.
pub record State : Type 0 where
  pub tk : Tracker
  pub cache : ArrayCache

abbrev pub Op : Type 0
Op = State → Result (Unit {0}) × State

abbrev pub andthen : Result (Unit {0}) × State → Op → Result (Unit {0}) × State
andthen (ok tt, s) k = k s
andthen (err e, s) k = (err e, s)

abbrev pub moved : ArrayCache → Result (Unit {0}) × Tracker → Result (Unit {0}) × State
moved cache (r, tk) = (r, record { tk = tk; cache = cache })

-- Nothing at the end, the first item for a tracker that is dangling, and else the next one.
abbrev pub tracker_goto_next_item_internal : Items → Tracker → Result (Unit {0}) × Tracker
tracker_goto_next_item_internal a tk =
    if tk.at_end
    then (err no_item, tk)
    else (if tracker_is_dangling tk then a.goto_first_item tk else a.goto_next_item tk)

abbrev pub go_next : Items → Op
go_next a s = moved s.cache (tracker_goto_next_item_internal a s.tk)

abbrev pub index_of : State → ℤ
index_of s = path_index s.tk.cur

-- The bytes of a number, the lowest first.
unfoldable pub le_bytes : ℕ → ℕ → List ℕ
le_bytes zero w = []
le_bytes (suc k) w = w % 256 ∷ le_bytes k (w / 256)

-- An int64_t and an `int` of a machine that is little-endian; `[]` where the assertion fails.
unfoldable pub expr_value_to_hashable : Value → List ℕ
unfolding le_bytes
expr_value_to_hashable (integer z) = le_bytes 8 (to_u64 z)
expr_value_to_hashable (boolean z) = le_bytes 4 (to_u64 z)
expr_value_to_hashable (string s) = s
expr_value_to_hashable (bytes s) = s
expr_value_to_hashable _ = []

-- The index of an item is not negative.
unfoldable pub array_index_is_marked : ArrayCache → ℤ → Bool
array_index_is_marked cache (pos index) =
    0 == bit_and index (2 ^ cache.cache_log2_n_keys_per_mark - 1)
array_index_is_marked cache (negsuc index) = false

-- The index -1 has the mark -1, BLOOM_BOOK_MARK_NONE.
unfoldable pub array_get_index_mark : ArrayCache → ℤ → Option ℕ
array_get_index_mark cache (pos index) = some (index / 2 ^ cache.cache_log2_n_keys_per_mark)
array_get_index_mark cache (negsuc index) = none

unfoldable pub array_get_mark_start_index : ArrayCache → ℕ → ℤ
array_get_mark_start_index cache mark = pos (mark * 2 ^ cache.cache_log2_n_keys_per_mark)

-- `unset` where the assertion fails.
unfoldable pub array_get_mark_offset_at_index : ArrayCache → List ℤ → ℤ → ℤ
unfolding array_get_index_mark
array_get_mark_offset_at_index cache offsets index = elim (array_get_index_mark cache index) [
  | some mark ↦ get_or offsets mark unset
  | none ↦ unset
]

unfoldable pub array_add_mark_offset : ℤ → Option (List ℤ) → Option (List ℤ)
array_add_mark_offset item_offset none = none
array_add_mark_offset item_offset (some offsets) = some (offsets ++ (item_offset ∷ []))

abbrev pub index_cache_exists : ArrayCache → Bool
index_cache_exists cache = elim cache.cache_by_key [ some book ↦ true | none ↦ false ]

-- The book of an array that is indexed.
abbrev pub book_of : ArrayCache → Book
book_of cache = elim cache.cache_by_key [ some book ↦ book | none ↦ bloom_book_create ]

-- log2_i(bloom_book_suggested_n_words_per_mark())
-- and BOX_INDEX_CACHE_DEFAULT_LOG2_N_KEYS_PER_MARK.
abbrev log2_n_keys : ℕ
log2_n_keys = 5

-- On a state of zeros, of an array that is indexed or is not.
unfoldable pub array_index_cache_init : Items → Bool → Result ArrayCache
unfolding bloom_book_create
array_index_cache_init a is_indexed = a.item_type >>= λ is_variable. ok (record {
  cache_by_key = if is_indexed then some bloom_book_create else none;
  mark_offsets = if is_variable then some [] else none;
  last_cached_index = unset;
  last_cached_item = false;
  last_cached_item_offset = unset;
  cache_log2_n_keys_per_mark = if is_indexed then 5 else (if is_variable then log2_n_keys else 0);
})

-- A mark in the book, and its offset.
unfoldable pub add_mark : ℤ → ArrayCache → ArrayCache
unfolding bloom_book_add_mark array_add_mark_offset
add_mark item_offset cache = record cache {
  cache_by_key = elim cache.cache_by_key [
    | some book ↦ some (bloom_book_add_mark book)
    | none ↦ none
  ];
  mark_offsets = array_add_mark_offset item_offset cache.mark_offsets;
}

unfoldable pub insert_key : Value → ArrayCache → ArrayCache
unfolding bloom_book_insert_word expr_value_to_hashable
insert_key key cache = record cache {
  cache_by_key = elim cache.cache_by_key [
    | some book ↦ some (bloom_book_insert_word (expr_value_to_hashable key) book)
    | none ↦ none
  ];
}

unfoldable pub tracker_index_cache_add_item : Value → State → State
unfolding add_mark insert_key array_index_is_marked
tracker_index_cache_add_item item_key s =
    let marked =
      if array_index_is_marked s.cache (index_of s)
      then add_mark s.tk.item_offset s.cache
      else s.cache in
    record s {
      cache = record (insert_key item_key marked) {
        last_cached_index = index_of s;
        last_cached_item = s.tk.has_item;
        last_cached_item_offset = s.tk.item_offset;
      };
    }

unfoldable pub array_index_cache_destroy : ArrayCache → ArrayCache
array_index_cache_destroy cache = record cache { cache_by_key = none; mark_offsets = none }
