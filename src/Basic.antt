-- ===== src/Basic.antt =====
-- BASIC-PLUS: the compiled form of a program (pcode.go), and the tokens of its text (token.go).
pub mod Image
pub mod Token
pub mod Error
pub mod Machine
pub mod Expr
pub mod Vm
pub mod Compiler
pub mod Parser
