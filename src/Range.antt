-- ===== src/Range.antt =====
-- src/compiler/range_plan.h and range_plan.cpp: bounded ranges and the expansion budget.
pub mod Plan
pub mod Bounds
pub mod Values
pub mod Budget
mod Tests
