-- ===== src/Hub.antt =====
-- What the game mod tells the plugin (src/core/hub/).
pub mod ModPassword
pub mod SteamIds
