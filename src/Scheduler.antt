-- ===== src/Scheduler.antt =====
-- src/scheduler.c: times as text (Time), what is checked before a task is stored (Check), and the
-- operations on the task file (Tasks).
pub mod Time
pub mod Check
pub mod Tasks
