-- ===== src/Vm.antt =====
-- internal/vm, the interpreter of WebAssembly modules.
pub mod Value
pub mod State
pub mod Memories
pub mod Tables
pub mod Globals
pub mod Operands
pub mod Control
pub mod Integers
pub mod Evaluate
pub mod Execute
