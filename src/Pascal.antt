-- ===== src/Pascal.antt =====
-- The compiled form of a Pascal program (pascal_pcode.go).
pub mod Image
