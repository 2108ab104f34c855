-- ===== src/Config.antt =====
-- The configuration of the plugin (src/core/config/).
pub mod Utf8
