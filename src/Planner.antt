-- ===== src/Planner.antt =====
-- src/bytecode/stack_permutation_planner.cpp: steps of stack plans, their cost and their effect.
pub mod Step
pub mod Moves
pub mod Stacks
pub mod Depths
pub mod Machine
pub mod Effects
pub mod Plans
pub mod Totals
pub mod Copy
pub mod Chains
pub mod Reach
pub mod Naturality
pub mod Assignment
pub mod Numbers
pub mod Emission
mod Tests
