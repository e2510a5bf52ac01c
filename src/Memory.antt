-- ===== src/Memory.antt =====
-- src/memory.c: the log and its tags (Log), keyword search (Search), and facts (Facts).
pub mod Log
pub mod Search
pub mod Facts
