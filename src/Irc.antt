-- ===== src/Irc.antt =====
-- src/irc_parse.c and src/irc.c: who a message is for, the lines of the protocol, the client's
-- state, and replies cut into protocol lines.
pub mod Mentions
pub mod Client
pub mod Reply
pub mod Calls
