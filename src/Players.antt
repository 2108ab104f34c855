-- ===== src/Players.antt =====
-- The remote players the plugin knows about (src/core/proximity/).
pub mod Table
pub mod Talk
