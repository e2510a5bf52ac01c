-- ===== src/Util.antt =====
-- src/util.c: bounded appends to a buffer, UTF-8 cuts and repairs, short ids, numbers in JSON
-- strings, and writes that go on until all is written.
pub mod Buf
pub mod Utf8
