-- ===== src/Http.antt =====
-- src/http.c: its URLs (Url), and bodies that are sent in chunks (Body).
pub mod Url
pub mod Body
