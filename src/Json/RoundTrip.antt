-- ===== src/Json/RoundTrip.antt =====
-- The parser at the texts of the printer.
pub mod Strings
pub mod Size
pub mod Steps
pub mod Values
