-- ===== src/Util.antt =====
-- src/util.h and src/util.c: little-endian words, hexadecimal and base64.
pub mod Endian
pub mod Hex
pub mod Base64
mod Tests
