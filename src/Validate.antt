-- ===== src/Validate.antt =====
-- internal/validate/validate.go: the checks of a function's body. A body is rejected as soon as one
-- diagnostic is added, so a check stops here at its first one, and the messages are kept apart only
-- by what they complain about.
pub mod Values
pub mod Operands
pub mod Signatures
pub mod Matching
pub mod Instructions
pub mod Plain
pub mod Numeric
pub mod Control
pub mod Heights
pub mod Discipline
pub mod Frames
pub mod Body
