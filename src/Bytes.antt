-- ===== src/Bytes.antt =====
-- Byte strings and the primitives of the image files: little-endian words, strings, counted lists,
-- and a reader that walks a byte slice and stops at the first read past its end.
pub mod Reader
pub mod Words
pub mod Signed
pub mod Lists
pub mod Magic
