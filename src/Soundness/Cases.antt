-- ===== src/Soundness/Cases.antt =====
-- The accepted instructions one by one: none goes wrong, and after each the executor matches the
-- state that the check gives.
pub mod Numbers
pub mod Memory
pub mod Table
