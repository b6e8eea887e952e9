-- ===== src/Filters.antt =====
-- libbitpunch/src/filters: the filters that read a value from a buffer, one module each.
pub mod Attributes
pub mod Base64
pub mod Varint
pub mod FormattedInteger
pub mod BinaryInteger
pub mod String
