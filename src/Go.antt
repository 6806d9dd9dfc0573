-- ===== src/Go.antt =====
-- The parts of Go's semantics that the program leans on.
pub mod Map
pub mod Mutex
pub mod Word
pub mod Outcome
pub mod Call
pub mod Slice
pub mod Script
