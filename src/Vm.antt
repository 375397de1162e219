-- ===== src/Vm.antt =====
-- src/debugger/vm/: the stacks and the instructions of the debugger's script machine.
pub mod Number
pub mod NumberText
pub mod Stack
pub mod Ops
pub mod Numeric
pub mod Bytes
pub mod Machine
pub mod Text
pub mod Opcodes
pub mod Blocks
pub mod Arms
pub mod Division
pub mod ByteStrings
mod Tests
