-- ===== src/Disk.antt =====
-- disk/: files and their types.
pub mod Mime
pub mod File
pub mod Directory
