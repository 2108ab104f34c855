-- ===== src/Http.antt =====
-- The local server that the game mod posts to: what src/core/http/http_request.h decides.
pub mod Headers
pub mod Guard
pub mod Body
pub mod Throttle
