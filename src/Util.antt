-- ===== src/Util.antt =====
-- Helpers that both programs use (util/).
pub mod Lock
