-- ===== src/Code.antt =====
-- lcode.c, lcode.h and the expression descriptors of lparser.h: the code generator.
pub mod State
pub mod Jumps
pub mod Emit
pub mod Constants
pub mod Expr
pub mod Oper
mod Tests
