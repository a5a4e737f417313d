-- ===== src/Basic/Parser.antt =====
-- The parser of BASIC-PLUS (parser.go), as far as expressions go.
pub mod Names
pub mod Answer
pub mod Operators
pub mod Expression
pub mod Progress
pub mod Total
