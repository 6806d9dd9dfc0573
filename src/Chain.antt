-- ===== src/Chain.antt =====
-- core/chainio and core/utils: what the program sends to the chain and reads from it.
pub mod Client
pub mod Points
pub mod Receipt
pub mod Writer
pub mod Watch
pub mod Connect
