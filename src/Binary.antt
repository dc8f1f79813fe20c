-- ===== src/Binary.antt =====
-- internal/binaryformat: the binary format's integers, names, types and immediates.
pub mod Reader
pub mod Leb
pub mod Types
pub mod Immediates
pub mod Vectors
pub mod Fields
pub mod TypeDefs
