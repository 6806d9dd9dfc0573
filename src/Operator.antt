-- ===== src/Operator.antt =====
-- operator/pkg: the operator, which verifies batches of proofs and signs those that verify.
pub mod Data
pub mod Halo2
pub mod Gnark
pub mod Verify
pub mod Download
pub mod Process
pub mod Rpc
pub mod Run
pub mod Setup
pub mod Commands
pub mod Foreign
