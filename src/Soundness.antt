-- ===== src/Soundness.antt =====
-- internal/validate/validate.go and internal/vm/execute.go together: what the validator's checks of
-- an instruction promise of its execution.
pub mod Outcome
pub mod Stacks
pub mod Checks
pub mod Machines
pub mod Addresses
pub mod Memories
pub mod Tables
pub mod Variables
pub mod Numeric
pub mod Select
pub mod Matching
pub mod Cases
pub mod Straight
