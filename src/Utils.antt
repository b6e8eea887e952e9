-- ===== src/Utils.antt =====
-- libbitpunch/src/utils: data structures that the library is built on.
pub mod TagSet
pub mod Bloom
pub mod DepResolver
