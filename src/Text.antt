-- ===== src/Text.antt =====
-- Texts as byte strings, and the functions of Go's `strings` and `strconv` that the program calls
-- on them, over ASCII.
pub mod Ascii
pub mod Decimal
