-- ===== src/CheckExpr.antt =====
-- The formulas of document checks (internal/checkexpr): syntax, lexer, parser, values and evaluation.
pub mod Syntax
pub mod Lexer
pub mod Parser
pub mod Value
pub mod Verdict
pub mod Operators
pub mod Functions
pub mod Calls
pub mod Eval
pub mod Check
pub mod Safety
