-- ===== src/Static.antt =====
-- src/compiler/static_integer_evaluator.cpp: integer constants at compile time.
pub mod Checked
pub mod Evaluator
pub mod Exact
pub mod Quotients
pub mod Sound
pub mod Errors
mod Tests
