-- ===== src/Lib.antt =====
-- Verification of libbitpunch, the C library of bitpunch, which reads binary files by a schema.
--
-- The parts of the program that are modelled, and how they interact:
--
-- * The schema's expressions. libbitpunch/src/core/ast.c compiles an expression: it looks up the
--   evaluator of each operator by the types that the operands may have, and computes what consists
--   of constants. libbitpunch/src/core/expr.c holds the operators, the table that the lookup
--   searches, and the evaluation of what has been compiled. Expr/Values models the values and their
--   comparison, Expr/Operators the operators (a definition for each function expr_evalop_… and for
--   each table item match_…) and the lookup, and Expr/Trees the compilation and the evaluation.
--   Expr/Lookup, Expr/Meaning, Expr/Soundness, Expr/Order and Expr/Laws hold the proofs.
-- * The filters, each a pair of callbacks that find the size of an item in a buffer and read its
--   value. Filters/Base64, Filters/Varint, Filters/BinaryInteger, Filters/FormattedInteger and
--   Filters/String model base64.c, varint.c, integer.c, formatted_integer.c and string.c of
--   libbitpunch/src/filters; the modules below each of them hold its proofs, but for
--   Filters/Base64/Table, the table of base64.c.
-- * Boxes and trackers, which delimit and walk what a filter spans of its data source. Browse/Box
--   models the offsets of the boxes of libbitpunch/src/core/browse.c: Browse/Box/Check the two
--   checks, Browse/Box/Place the setters, the inherited boundaries and the construction; the other
--   modules below Browse/Box hold the proofs. Browse/Sizes models the sizes that a box computes on
--   demand, on a box with its ancestors, and Browse/Sizes/Offsets the choice among them;
--   Browse/Sizes/Frame and Browse/Sizes/Allocation hold the proofs. Browse/Delegate models the
--   backends of libbitpunch/src/filters/item.c that take a size from another one, from the filter or
--   from an attribute; Browse/Delegate/Span holds the proof.
--   Arrays/Tracker models a tracker in an array, Arrays/ByteArray the backends of
--   libbitpunch/src/filters/byte_array.c, with what it takes of array.c, and Arrays/Slice those of
--   array_slice.c, which call them; Arrays/Walk, Arrays/SliceWalk and Arrays/Truncation hold the
--   proofs. A slice is taken straight from an array.
-- * The cache of an indexed array, libbitpunch/src/filters/array_index_cache.c, which keeps the
--   keys of the items that have been passed in a book of Bloom filters, with a mark for every 32
--   items. Arrays/IndexCache models the cache and what is added to it, Moves the moves of a
--   tracker to a mark and to the last cached item, Twins the iterator over the cached items with
--   a key, and TwinSearch the searches by number; Match and Keyed, all below Arrays/IndexCache,
--   model the moves by key of array.c, which look in the cache first and then browse the tail,
--   ItemKey the key of an item with its number among the items with that key, and Nth the move to
--   an item by its index. Placed says what it is for a tracker to stand at an item, with its
--   offset, MarkPlaces and Coherent what a cache holds and Searched what a search is; Passing,
--   MatchFinds, Candidate, GotoMark, MarkFinds, TwinLookup, TwinFinds, LookupFinds, LastCached
--   and NextKeyed hold the proofs of the move to the next item with a key, from the loop over
--   items to the loop over marks, and TwinNext, TwinsBefore, TwinCount, TailCount and NthKeyed
--   those of the move to the nth one, and KeyNumber and KeyRoundTrip those of the number and of
--   the way back from it; NthFinds, NthStart and NthItem those of the move by index.
-- * The resolver of dependencies between the nodes of a schema,
--   libbitpunch/src/utils/dep_resolver.c, which the compiler drives with a callback. Utils/TagSet
--   models the sets of tags, Utils/DepResolver the state, the scheduling, and the loop as a relation
--   between states with the callback as a parameter, and Utils/DepResolver/Cycle the report of a
--   circular dependency; the other modules below Utils/DepResolver hold the proofs.
-- * The book of Bloom filters, libbitpunch/src/utils/bloom.c, in which the cache of indexed arrays
--   looks up keys. Utils/Bloom models the book and Utils/Bloom/Query the lookup; Bits, Search, Lookup,
--   Bounds, Marking and Words below Utils/Bloom hold the proofs, from the masks to the words.
-- * What the filters share: Filters/Attributes models the byte order attribute of integer.c, and
--   Status the status codes of libbitpunch/include/api/bitpunch-structs.h.
--
-- How the code is modelled:
--
-- * A buffer is the list of its bytes, so its length is buffer_size, and a pointer into it is what
--   is left of the list. A call that returns BITPUNCH_OK and sets its output is `ok`, with the output;
--   any other status is `err`. An assertion that would stop the program is `err error`, `none` or an
--   outcome of its own, as said at the definition.
-- * An int64_t is an integer ℤ with its bounds, and each operation of the expressions and the filters
--   on one is wrapped to 64 bits (Base/Words), which is what the compiler's targets do. The sums and
--   differences of offsets and sizes of boxes and trackers, and the numbers of twins, which are of
--   type int, are taken to stay within their types, and are not wrapped. A shift by 64 or more is undefined in C:
--   its result is a parameter (Base/Machine), as are the loads of whole words and the conversions
--   of <endian.h>, with the laws that the code relies on.
-- * Offsets of boxes are ℤ, with -1 for an unknown one. A setter that fails leaves its box as it
--   is. The assertion of box_set_size() that the fixed end is known is left to its callers. The
--   backends of the filters that compute sizes, and box_apply_parent_filter_internal(), are parameters
--   of the computation, which passes on the box, its ancestors and the scope of the evaluation. The
--   moves of a tracker pass a state on, which comes back after an error too; the value of the size
--   expression, the filters of the parents, the slack size and the callbacks that locate an item
--   are parameters of them.
-- * filter_evaluate_attribute_internal() of libbitpunch/src/core/filter.c is a parameter, a record
--   of the outcomes of evaluating an attribute in the scope of the filter. In Browse/Delegate it is
--   an operation on the state, as are the callbacks for the size of an item. Of the C library,
--   memchr(), memmem() and memcmp() are defined as functions on lists.
-- * The loops of the filters run over the bytes of a buffer or over a table, and are structural
--   recursions. Those over the items of an indexed array run on fuel, max_rounds, and end in
--   BITPUNCH_ERROR where it is used up: n + 2 rounds are enough for an array of n items, since every
--   round passes an item or a mark. Every definition is total. The loop of the dependency resolver
--   runs for as long as the callback schedules tags, so that it is a relation, made of rounds.
-- * A set of tags is the list of its bits, and the queues of the dependency resolver are lists, whose
--   entries carry their addresses.
-- * The pages of a book of Bloom filters are a function from page, level and index to the bloom; its
--   loops run for as many rounds as indexes or pages are left, and its counters are not bounded.
-- * The items of an indexed array are a parameter: the move to the first item, the callback that moves
--   on from an item, the value of the key expression in the box of an item, which leaves the tracker
--   as it is, and the filter of the items; tracker_goto_next_item_internal() chooses among the moves.
--   What the proofs rely on is said of a forward tracker that is dangling, or that stands at an item
--   with the offset of that item, and is not at the end (IsIndexed in Searched). The cache belongs to the box, so it
--   is passed on from one tracker in the box to another. The hashable form of an integer is that of a
--   little-endian machine.
-- * The messages and contexts of errors, reference counts and memory are left out.
--
-- Not modelled: the application of filters to boxes and the moves of trackers by field and by path
-- (browse.c), the item sizes of trackers (item.c), the parser, scopes, the sizes of arrays of other
-- items than bytes, the composite filters, decompression (which calls snappy and zlib), the public
-- interface and the Python binding.
pub mod Base
pub mod Arrays
pub mod Browse
pub mod Status
pub mod Expr
pub mod Filters
pub mod Utils
mod Runs
