-- ===== src/Tests.antt =====
-- The theorems at concrete inputs, and runs of the code on inputs that can be followed in the source.
mod Util
mod Session
mod Irc
mod IrcClient
mod Scheduler
mod Stores
mod Wire
mod Daemon
mod Agent
mod ToolExec
mod Message
