-- ===== src/Examples.antt =====
-- The theorems at concrete inputs.
mod Batches
mod Keys
mod Names
mod Tasks
mod Threads
mod Network
mod Watching
mod Starting
mod Commands
mod Parser
mod CommandLines
mod Samples
mod Replies
mod Answers
mod Configs
mod Sender
mod Setup
