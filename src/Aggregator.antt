-- ===== src/Aggregator.antt =====
-- aggregator/internal/pkg and aggregator/cmd: the aggregator, its operations and its program.
pub mod State
pub mod Registry
pub mod AddTask
pub mod Server
pub mod Respond
pub mod Subscribe
pub mod Threads
pub mod Setup
pub mod Start
pub mod Commands
