-- ===== src/Files.antt =====
-- The file system layer, QFileSystem/.
pub mod Vfs
pub mod Path
