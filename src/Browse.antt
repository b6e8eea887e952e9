-- ===== src/Browse.antt =====
-- libbitpunch/src/core/browse.c: the boxes that delimit what a filter spans of its data source.
pub mod Box
pub mod Sizes
pub mod Delegate
