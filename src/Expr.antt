-- ===== src/Expr.antt =====
-- libbitpunch/src/core/expr.c: values of expressions, their operators, and how expressions built
-- from operators are compiled and evaluated.
pub mod Values
pub mod Operators
pub mod Trees
pub mod Lookup
pub mod Meaning
pub mod Soundness
pub mod Order
pub mod Laws
