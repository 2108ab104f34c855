-- ===== src/Channel.antt =====
-- The automatic moves between the hub and the ingame channel.
pub mod Backoff
pub mod Names
pub mod State
pub mod Find
pub mod Ignore
pub mod Move
pub mod Tick
