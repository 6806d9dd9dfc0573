-- ===== src/Config.antt =====
-- core/config: what the programs read at startup. `log.Fatal` ends the process; a nil pointer is `none`.
pub mod Deployment
pub mod Keys
pub mod Base
pub mod Programs
pub mod CommandLine
