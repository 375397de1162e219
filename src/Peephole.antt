-- ===== src/Peephole.antt =====
-- src/bytecode_peephole_pass.h: window rewrites of adjacent instructions.
pub mod Text
pub mod Push
pub mod Rules
pub mod Pass
pub mod Hex
pub mod Reads
pub mod Windows
pub mod Agreement
pub mod Producers
pub mod Forms
pub mod Constants
pub mod Context
pub mod Soundness
pub mod PairRules
pub mod Verify
pub mod Control
pub mod Equality
pub mod TripleWindows
pub mod TripleRules
pub mod Decoded
pub mod Placeholders
pub mod Duplicates
pub mod Suffix
pub mod Decisions
pub mod Rounds
pub mod Payloads
mod Tests
