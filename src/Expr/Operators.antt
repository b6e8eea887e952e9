-- ===== src/Expr/Operators.antt =====
-- libbitpunch/src/core/expr.c: the operators, by kind, and the table of them.
pub mod Items
pub mod Integers
pub mod Comparisons
pub mod Logic
pub mod Arithmetic
pub mod Table
