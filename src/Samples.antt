-- ===== src/Samples.antt =====
-- task_sender/test_examples: the programs that make sample proofs with gnark.
pub mod Circuits
pub mod Scripts
pub mod Infinite
