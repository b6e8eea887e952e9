-- ===== src/Runs.antt =====
-- Tests on concrete inputs, and the theorems applied to concrete inputs.
pub mod Host
mod Base64
mod Varint
mod BinaryInteger
mod FormattedInteger
mod String
mod Expr
mod DepResolver
mod Box
mod Arrays
mod Bloom
mod IndexCache
mod Sizes
