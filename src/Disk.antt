-- ===== src/Disk.antt =====
-- What guards the files of the disk (filesystem.go): protection codes, record locks and the claims
-- of the jobs that have a file open.
pub mod Protection
pub mod Locks
pub mod Claims
