-- ===== src/Core.antt =====
-- QCCore: blocks of memory and C strings.
pub mod Block
pub mod CString
