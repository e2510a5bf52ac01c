-- ===== src/Agent.antt =====
-- The conversation with the model in src/agent.c: its history, its tool calls and its sessions.
pub mod History
pub mod Repeats
pub mod Extract
pub mod Session
