-- ===== src/Arrays.antt =====
-- libbitpunch/src/filters/array*.c and byte_array.c: the trackers over arrays and their slices.
pub mod Tracker
pub mod IndexCache
pub mod ByteArray
pub mod Slice
pub mod Walk
pub mod SliceWalk
pub mod Truncation
