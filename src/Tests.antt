-- ===== src/Tests.antt =====
-- The theorems at concrete inputs.
mod Rings
mod Commands
mod Workers
mod Modes
mod Auths
mod Pings
mod Texts
mod Adapters
mod Connections
mod Channels
mod Players
mod Https
mod Lengths
mod Hubs
mod Moves
mod Nicks
mod Talkers
mod Utf8s
mod Voices
