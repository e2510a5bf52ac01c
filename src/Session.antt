-- ===== src/Session.antt =====
-- src/session.c: the owner conversation (Chat) and the session files (Store).
pub mod Chat
pub mod Store
