-- ===== src/Command.antt =====
-- The command centre, QCommand/.
pub mod Registry
