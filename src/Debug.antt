-- ===== src/Debug.antt =====
-- src/debugger/info/debug_info.cpp and src/debugger/breakpoint: where instructions come from in the
-- source, and the breakpoints that are set on it.
pub mod Maps
pub mod Info
pub mod Lookup
pub mod Index
pub mod Lines
pub mod Updates
pub mod Origins
pub mod Filled
pub mod Breakpoint
pub mod Manager
pub mod Hits
pub mod Mapping
pub mod Resolve
pub mod Validity
pub mod Invariant
pub mod Changes
pub mod Adding
pub mod Commands
pub mod Active
pub mod Stops
pub mod Hitting
pub mod Setting
pub mod Ignored
mod Tests
