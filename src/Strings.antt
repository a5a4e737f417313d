-- ===== src/Strings.antt =====
-- String arithmetic (strarith.go): decimal numbers held as characters. A big integer is an integer
-- here, of any size.
pub mod Decimal
pub mod Print
pub mod RoundTrip
pub mod Sum
pub mod Round
