-- ===== src/Daemon.antt =====
-- src/daemon.c: the queue of triggers and the start of a session (Start), the rounds of the loop
-- (Dispatch), the IRC link (Link), and the configuration (Providers, Config).
pub mod Start
pub mod Dispatch
pub mod Link
pub mod Providers
pub mod Config
