-- ===== src/Voice.antt =====
-- The voice mode, its hotkeys and the distance it stands for (src/core/voice/voice_modes.c and
-- src/core/proximity/zone_resolve.c).
pub mod Mode
pub mod Keys
pub mod Zone
pub mod Distance
