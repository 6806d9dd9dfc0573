-- ===== src/TaskSender.antt =====
-- task_sender: the program that sends tasks, one proof each, as its operator asks on the command line.
pub mod Text
pub mod Upload
pub mod Rounds
pub mod Commands
